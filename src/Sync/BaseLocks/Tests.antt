-- ===== src/Sync/BaseLocks/Tests.antt =====
-- Runs of sync/baselocks.rs at concrete states, and the witnesses of its theorems. The strategy
-- spins, and counts its turns.
use cookie_os.Base.{arith, ℕ, ◌+◌, ◌≡◌, refl, ◌∷◌, [], All, false}
use cookie_os.Sync.BaseLocks.{
  BaseRwLockRaw, RwLockStrategy, failed, writer, upgrader, spin_rw_lock_strategy,
  try_lock_exclusive, try_lock_shared_add, try_lock_upgradable_add, try_upgrade,
}
use cookie_os.Sync.BaseLocks.Steps.{Thread, Action, System, Step, Reach}
use cookie_os.Sync.BaseLocks.Exclusion.{holds_lock, exclusive_alone, upgrade_lem}
use Thread.{idle, shared, exclusive, upgradable, retreating_shared}

abbrev hooks : RwLockStrategy ℕ
hooks = spin_rw_lock_strategy (λ turns. turns + 1)

abbrev lock_of : ℕ → BaseRwLockRaw ℕ
lock_of value = record { value = value; strategy = 0 }

abbrev new_system : System hooks
new_system = record { lock = lock_of 0; threads = idle ∷ idle ∷ idle ∷ [] }

new_system-Reach : Reach hooks new_system
new_system-Reach = Reach.start 0 (idle ∷ idle ∷ idle ∷ []) (refl, (refl, (refl, tt)))

-- A writer, and a reader whose attempt has failed.
abbrev written : System hooks
written = record {
  lock = lock_of (writer + 1);
  threads = exclusive ∷ idle ∷ retreating_shared ∷ [];
}

written-Reach : Reach hooks written
unfolding try_lock_exclusive try_lock_shared_add
written-Reach =
    Reach.next {s = record { lock = lock_of writer; threads = exclusive ∷ idle ∷ idle ∷ [] }}
      (Reach.next new_system-Reach
        (Step.act [] (idle ∷ idle ∷ []) refl (Action.lock_exclusive_ok {k = lock_of writer} refl)))
      (Step.act (exclusive ∷ idle ∷ []) [] refl
        (Action.lock_shared_fails {k = lock_of (writer + 1)} refl))

-- An upgradable lock and a reader.
abbrev upgradable_read : System hooks
upgradable_read = record {
  lock = lock_of (upgrader + 1);
  threads = upgradable ∷ shared ∷ idle ∷ [];
}

upgradable_read-Reach : Reach hooks upgradable_read
unfolding try_lock_upgradable_add try_lock_shared_add
upgradable_read-Reach =
    Reach.next {s = record { lock = lock_of 1; threads = idle ∷ shared ∷ idle ∷ [] }}
      (Reach.next new_system-Reach
        (Step.act (idle ∷ []) (idle ∷ []) refl (Action.lock_shared_ok {k = lock_of 1} refl)))
      (Step.act [] (shared ∷ idle ∷ []) refl
        (Action.lock_upgradable_ok {k = lock_of (upgrader + 1)} refl))

exclusive_alone_example : All (λ p. holds_lock p ≡ false) (idle ∷ retreating_shared ∷ [])
exclusive_alone_example =
    exclusive_alone hooks (omega arith) written-Reach [] (idle ∷ retreating_shared ∷ []) refl

upgrade_lem_example : try_upgrade hooks (lock_of (upgrader + 1)) ≡ failed (lock_of (upgrader + 1))
upgrade_lem_example =
    upgrade_lem hooks (omega arith) upgradable_read-Reach [] (shared ∷ idle ∷ []) refl
