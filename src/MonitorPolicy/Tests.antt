-- ===== src/MonitorPolicy/Tests.antt =====
-- Policies at concrete samples.
use cpp_tlfss.Base.{[], ◌∷◌, ◌≡◌, if◌then◌else◌, arith}
use cpp_tlfss.MonitorPolicy.Policy.{
  pending, ContForPolicy, cont_for_value, cont_for, feed, feed_smooth_trim, policy_value,
}
use cpp_tlfss.MonitorPolicy.Edges.{is_edge, feed-edge}
use cpp_tlfss.MonitorPolicy.Duration.{feed_all, any_due, feed_all-alert}
use cpp_tlfss.MonitorPolicy.Window.{
  IsWindow, feed_smooth_trim-IsWindow, fresh_smooth_trim, fresh-IsWindow,
}

abbrev waiting : ContForPolicy
waiting = record { threshold = 80; duration = 100; state = pending; crossed_at = 5 }

feed-edge_example :
    ((feed 90 200 (cont_for waiting)).0.reported ≡ policy_value (feed 90 200 (cont_for waiting)).1)
    × ((feed 90 200 (cont_for waiting)).0.noteworthy
        ≡ is_edge
            (cont_for waiting)
            (policy_value (cont_for waiting))
            (policy_value (feed 90 200 (cont_for waiting)).1))
feed-edge_example = feed-edge 90 200 (cont_for waiting)

feed_all-alert_example :
    cont_for_value (feed_all ((70, 0) ∷ (90, 10) ∷ (95, 60) ∷ (99, 115) ∷ []) waiting).state
    ≡ (if any_due 100 10 ((95, 60) ∷ (99, 115) ∷ []) then 1 else 0)
feed_all-alert_example =
    feed_all-alert waiting 70 90 10 0 ((95, 60) ∷ (99, 115) ∷ []) (omega arith) (omega arith)
      (omega arith, (omega arith, tt))

feed_smooth_trim-IsWindow_example : IsWindow (feed_smooth_trim 50 (fresh_smooth_trim 3 10)).1
feed_smooth_trim-IsWindow_example =
    feed_smooth_trim-IsWindow 50 (fresh_smooth_trim 3 10) (omega arith)
      (fresh-IsWindow 3 10 (omega arith) (omega arith))
