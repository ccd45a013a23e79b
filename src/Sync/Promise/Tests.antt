-- ===== src/Sync/Promise/Tests.antt =====
-- Runs of sync/promise.rs at concrete states, and the witnesses of its theorems.
use cookie_os.Base.{ℕ, refl, [], ◌∷◌, Option, none, some}
use cookie_os.Sync.Promise.{POnceLock, set_exchange}
use cookie_os.Sync.Promise.Once.{Setter, Action, System, Step, Reach}

abbrev cell : ℕ → Option ℕ → POnceLock ℕ
cell state value = record { state = state; value = value }

-- Two threads, of which the first sets the cell to 7.
abbrev complete : System ℕ
complete = record { lock = cell 2 (some 7); setters = Setter.outside ∷ Setter.outside ∷ [] }

complete-Reach : Reach complete
unfolding set_exchange
complete-Reach =
    let at : POnceLock ℕ → Setter → System ℕ =
      λ l p. record { lock = l; setters = p ∷ Setter.outside ∷ [] } in
    Reach.next {s = at (cell 1 (some 7)) Setter.written}
      (Reach.next {s = at (cell 1 none) Setter.winner}
        (Reach.next (Reach.start (Setter.outside ∷ Setter.outside ∷ []) (refl, (refl, tt)))
          (Step.act [] (Setter.outside ∷ []) refl (Action.wins {k = cell 1 none} refl)))
        (Step.act [] (Setter.outside ∷ []) refl (Action.writes 7)))
      (Step.act [] (Setter.outside ∷ []) refl Action.stores)
