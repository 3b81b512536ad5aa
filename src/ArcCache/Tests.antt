-- ===== src/ArcCache/Tests.antt =====
-- A cache of three slots over numbers.
use cpp_tlfss.Base.{ℕ, ◌≡◌, none, some, List, [], ◌∷◌, arith, ℕ_discrete}
use cpp_tlfss.ArcCache.Cache.{ArcCache, make_cache, put, get}
use cpp_tlfss.ArcCache.Lfu
use cpp_tlfss.ArcCache.Content.{History}
use cpp_tlfss.ArcCache.Adapting.{IsValid, make_cache-IsValid}
use cpp_tlfss.ArcCache.Evictions.{Decreased, decrease-Decreased}
use cpp_tlfss.ArcCache.History.{
  Call, putting, getting, erasing, run, Answers, Refines, run-Answers, make_cache-Refines, get-put,
}
use cpp_tlfss.ArcCache.Slices.{make_hash_cache}
use cpp_tlfss.ArcCache.Sharing.{IsShared, make_hash_cache-IsShared}
use cpp_tlfss.ArcCache.Sliced.{hash_run, HashRefines, hash_run-Answers, make_hash_cache-HashRefines}

abbrev cache : ArcCache ℕ ℕ
cache = make_cache 3 2

abbrev nothing_put : History ℕ ℕ
nothing_put key = none

abbrev calls : List (Call ℕ ℕ)
calls =
    putting 1 10
    ∷ getting 1
    ∷ putting 2 20
    ∷ putting 3 30
    ∷ putting 4 40
    ∷ putting 2 21
    ∷ getting 2
    ∷ erasing 1
    ∷ getting 1
    ∷ []

cache-Refines : Refines ℕ_discrete nothing_put cache
cache-Refines = make_cache-Refines ℕ_discrete 3 2

run-Answers_example :
    Answers ℕ_discrete calls nothing_put (run ℕ_discrete calls cache).0
    × IsValid ℕ_discrete (run ℕ_discrete calls cache).1
run-Answers_example = run-Answers ℕ_discrete calls nothing_put cache cache-Refines

get-put_example : (get ℕ_discrete (1) (put ℕ_discrete 1 10 cache)).0 ≡ some 10
unfolding make_cache
get-put_example = get-put ℕ_discrete 1 10 nothing_put cache cache-Refines (omega arith)

decrease-Decreased_example :
    Decreased ℕ_discrete (Lfu.decrease_capacity ℕ_discrete cache.lfu) cache.lfu
decrease-Decreased_example =
    decrease-Decreased ℕ_discrete cache.lfu (make_cache-IsValid ℕ_discrete 3 2).lfu_sound

make_hash_cache-IsShared_example : IsShared {V = ℕ} ℕ_discrete 10 (make_hash_cache 8 10 4)
make_hash_cache-IsShared_example = make_hash_cache-IsShared ℕ_discrete 8 10 4

hash_run-Answers_example :
    Answers ℕ_discrete calls nothing_put
      (hash_run ℕ_discrete (λ k. k) calls (make_hash_cache 8 10 4)).0
    × ((final : History ℕ ℕ) × HashRefines ℕ_discrete
          (λ k. k)
          final
          (hash_run ℕ_discrete (λ k. k) calls (make_hash_cache 8 10 4)).1)
hash_run-Answers_example =
    hash_run-Answers ℕ_discrete (λ k. k) calls nothing_put (make_hash_cache 8 10 4)
      (make_hash_cache-HashRefines ℕ_discrete (λ k. k) 8 10 4)
