-- ===== src/MonitorStore/Data.antt =====
-- The types of inc/monitor/monitor_data.h.
use cpp_tlfss.Base.{ℕ, Bool, true, false, ◌&&◌, ◌||◌, Option, List, ltb, ◌==◌}

-- `MonitorKey`, four 32-bit numbers.
pub record MonitorKey : Type 0 where
  pub mid : ℕ
  pub level : ℕ
  pub fid : ℕ
  pub eid : ℕ

-- `MonitorFilter`: a field that is not set does not filter.
pub record MonitorFilter : Type 0 where
  pub module_id : Option ℕ
  pub level_wanted : Option ℕ
  pub function_id : Option ℕ
  pub event_id : Option ℕ

-- `operator==` of keys, by `std::tie`.
unfoldable pub key_eq : MonitorKey → MonitorKey → Bool
key_eq a b = (a.mid == b.mid) && ((a.level == b.level) && ((a.fid == b.fid) && (a.eid == b.eid)))

-- `operator<` of keys, by `std::tie`: the first field that differs decides.
unfoldable pub key_lt : MonitorKey → MonitorKey → Bool
key_lt a b =
    ltb a.mid b.mid
    || ((a.mid == b.mid)
        && (ltb a.level b.level
            || ((a.level == b.level)
                && (ltb a.fid b.fid || ((a.fid == b.fid) && ltb a.eid b.eid)))))

pub record NumericValue : Type 0 where
  pub value : ℕ
  pub state : ℕ

-- `std::variant<NumericValue, std::string>`; `valueless` is one that `valueless_by_exception` holds of.
pub data MonitorValue : Type 0 where
  numeric : NumericValue → MonitorValue
  text : List ℕ → MonitorValue
  valueless : MonitorValue

pub record MonitorData : Type 0 where
  pub key : MonitorKey
  pub description : List ℕ
  pub content : MonitorValue

pub record StoredRecord : Type 0 where
  pub stored : MonitorData
  pub changed_at : ℕ

pub data UpdateStatus : Type 0 where
  inserted : UpdateStatus
  updated : UpdateStatus
  unchanged : UpdateStatus
  ignored_initial_zero : UpdateStatus
  invalid : UpdateStatus
  durability_failed : UpdateStatus

pub record UpdateResult : Type 0 where
  pub status : UpdateStatus
  pub copy : Option StoredRecord

-- `UpdateResult::changed`.
unfoldable pub changed : UpdateResult → Bool
changed r = elim (r.status) [ inserted ↦ true | updated ↦ true | _ ↦ false ]
