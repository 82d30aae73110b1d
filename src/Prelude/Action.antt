-- ===== src/Prelude/Action.antt =====
-- Code that mutates a state: a function from the state to its result and the new state.

abbrev pub Act : Type 0 → Type 0 → Type 0
Act S A = S → A × S
