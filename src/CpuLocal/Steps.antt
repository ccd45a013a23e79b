-- ===== src/CpuLocal/Steps.antt =====
-- multitasking/cpulocal.rs: tasks in `_get_for_inner`, a use of the lock of the `Vec` at a time.
use cookie_os.Base.{ℕ, ◌≡◌, [], Option, none, some, update, ok}
use cookie_os.CpuLocal.{CpuLocal, Get, get_section}

-- The call that each task is in, if any.
pub record Machine : Type 0 where
  pub local : CpuLocal
  pub calls : ℕ → Option Get

pub data Step (s : Machine) : Machine → Type 0 where
  call :
      (task id : ℕ)
      → s.calls task ≡ none
      → Step s (record s { calls = update s.calls task (some (Get.enter id)) })
  section :
      (task : ℕ) (get next : Get) (local : CpuLocal)
      → s.calls task ≡ some get
      → get_section s.local get ≡ ok (local, next)
      → Step s (record { local = local; calls = update s.calls task (some next) })
  return :
      (task id pointer : ℕ)
      → s.calls task ≡ some (Get.done id pointer)
      → Step s (record s { calls = update s.calls task none })

abbrev pub unused : Machine
unused = record { local = record { pointers = []; boxes = 0 }; calls = λ task. none }

pub data Reach : Machine → Type 0 where
  start : Reach unused
  next : {s t : Machine} → Reach s → Step s t → Reach t

-- Any number of steps.
pub data Steps (s : Machine) : Machine → Type 0 where
  nothing : Steps s s
  then : {t u : Machine} → Steps s t → Step t u → Steps s u
