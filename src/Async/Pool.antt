-- ===== src/Async/Pool.antt =====
-- Requests that interleave: a family of processes over one world. At each turn one of them makes its
-- next call. A request whose turn has not come yet has not arrived.
use servir.Prelude.{ℕ, ◌≡◌, ◌≢◌, List, [], ◌∷◌}
use mathlib.Core.Logic.{ite, if_pos, if_neg}
use native.Mathlib.Decide.{ℕ_discrete}
use servir.System.{System}
use servir.System.Actions.{World}
use servir.Response.{Response}
use servir.Auth.Config.{AuthConfig}
use servir.Auth.Service.{Request}
use servir.Db.Schema.{Tables}
use servir.Async.Proc.{Proc, done, step}
use servir.Async.Handlers.{serve}

abbrev pub update {ℓ} : {A : Type ℓ} → (ℕ → A) → ℕ → A → ℕ → A
update f i a j = ite (ℕ_discrete i j) a (f j)

pub update-same {ℓ} : {A : Type ℓ} (f : ℕ → A) (i : ℕ) (a : A) (j : ℕ) → i ≡ j → update f i a j ≡ a
update-same f i a j h = if_pos (ℕ_discrete i j) h a (f j)

pub update-other {ℓ} :
    {A : Type ℓ} (f : ℕ → A) (i : ℕ) (a : A) (j : ℕ) → i ≢ j → update f i a j ≡ f j
update-other f i a j h = if_neg (ℕ_discrete i j) h a (f j)

pub record Pool : Type 0 where
  pub world : World Tables
  pub requests : ℕ → Proc Tables Response

abbrev pub next_process : Proc Tables Response → World Tables → Proc Tables Response
next_process (done r) w = done r
next_process (step next rest) w = rest w

abbrev pub next_world : Proc Tables Response → World Tables → World Tables
next_world (done r) w = w
next_world (step next rest) w = next w

-- Request `i` makes its next call.
abbrev pub turn : ℕ → Pool → Pool
turn i s = record {
  world = next_world (s.requests i) s.world;
  requests = update s.requests i (next_process (s.requests i) s.world);
}

-- The turns in this order.
abbrev pub interleave : List ℕ → Pool → Pool
interleave [] s = s
interleave (i ∷ order) s = interleave order (turn i s)

-- The server with these requests, none of which has begun.
abbrev pub arriving : System → AuthConfig → (ℕ → Request) → World Tables → Pool
arriving sys config requests w = record { world = w; requests = λ i. serve sys config (requests i) }

-- What every turn keeps, every interleaving keeps.
pub interleave-keeps {ℓ} :
    (Inv : Pool → Type ℓ)
    → ((i : ℕ) (s : Pool) → Inv s → Inv (turn i s))
    → (order : List ℕ) (s : Pool) → Inv s
    → Inv (interleave order s)
interleave-keeps Inv h [] s inv = inv
interleave-keeps Inv h (i ∷ order) s inv = interleave-keeps Inv h order (turn i s) (h i s inv)
