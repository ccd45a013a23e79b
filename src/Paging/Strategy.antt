-- ===== src/Paging/Strategy.antt =====
-- kernel/rust/src/memory/paging/strategy.rs, and the strategies of arch/x86_64.rs: how an allocation
-- is searched for, one entry for each level of tables.
use cookie_os.Base.{ℕ, Bool, true, false, Option, none, some, List, [], ◌∷◌, Outcome, ok, panic}

pub record PageAllocationStrategy : Type 0 where
  pub reverse_order : Bool
  pub min_page : Option ℕ
  pub max_page : Option ℕ
  pub spread_mode : Bool

abbrev pub new_default : PageAllocationStrategy
new_default = record {
  reverse_order = false;
  min_page = none;
  max_page = none;
  spread_mode = false;
}

-- The builder methods.
abbrev pub with_reverse_order : Bool → PageAllocationStrategy → PageAllocationStrategy
with_reverse_order r s = record s { reverse_order = r }

abbrev pub with_min_page : ℕ → PageAllocationStrategy → PageAllocationStrategy
with_min_page r s = record s { min_page = some r }

abbrev pub no_min_page : PageAllocationStrategy → PageAllocationStrategy
no_min_page s = record s { min_page = none }

abbrev pub with_max_page : ℕ → PageAllocationStrategy → PageAllocationStrategy
with_max_page r s = record s { max_page = some r }

abbrev pub no_max_page : PageAllocationStrategy → PageAllocationStrategy
no_max_page s = record s { max_page = none }

abbrev pub with_spread_mode : Bool → PageAllocationStrategy → PageAllocationStrategy
with_spread_mode r s = record s { spread_mode = r }

-- The last strategy of a list serves all lower levels.
abbrev pub pas_next_level_down : List PageAllocationStrategy → List PageAllocationStrategy
pas_next_level_down [] = []
pas_next_level_down (s ∷ []) = s ∷ []
pas_next_level_down (s ∷ t ∷ ts) = t ∷ ts

abbrev pub pas_current : List PageAllocationStrategy → Outcome PageAllocationStrategy
pas_current [] = panic
pas_current (s ∷ ss) = ok s

abbrev pub allocation_default : List PageAllocationStrategy
allocation_default = new_default ∷ []

abbrev pub kallocation_kernel_stack : List PageAllocationStrategy
kallocation_kernel_stack =
    with_reverse_order true new_default
    ∷ with_spread_mode true (with_reverse_order true new_default)
    ∷ with_reverse_order true new_default
    ∷ []

abbrev pub kallocation_kernel_generaldyn : List PageAllocationStrategy
kallocation_kernel_generaldyn = with_reverse_order true new_default ∷ []

abbrev pub kallocation_dyn_mmio : List PageAllocationStrategy
kallocation_dyn_mmio = with_reverse_order true new_default ∷ new_default ∷ []

abbrev pub allocation_user_stack : List PageAllocationStrategy
allocation_user_stack =
    with_max_page 255 (with_reverse_order true new_default)
    ∷ with_spread_mode true (with_reverse_order true new_default)
    ∷ with_reverse_order true new_default
    ∷ []

abbrev pub allocation_user_heap : List PageAllocationStrategy
allocation_user_heap = new_default ∷ with_min_page 1 new_default ∷ new_default ∷ []
