-- ===== src/System/Parts.antt =====
-- A database among those of a process: its part of their state.
use servir.System.Actions.{World}

pub record Part (D T : Type 0) : Type 0 where
  pub read : D → T
  pub write : T → D → D

-- The only database.
abbrev pub whole : {T : Type 0} → Part T T
whole = record { read = λ t. t; write = λ t d. t }

-- What runs on a part, on the whole.
abbrev pub on_part : {D T R : Type 0} → Part D T → (World T → R × World T) → World D → R × World D
on_part part m w =
    let out = m (record { db = part.read w.db; tick = w.tick }) in
    (out.0, record { db = part.write out.1.db w.db; tick = out.1.tick })
