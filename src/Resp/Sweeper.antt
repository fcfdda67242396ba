-- ===== src/Resp/Sweeper.antt =====
-- The sweeper of TLS handshakes of internal/resp/handshake.go. An entry has what its two concurrent
-- reads find: whether the connection was closed, and whether its handshake is complete. A sweep's
-- calls of Close are the list of the connections that it closes.
pub mod Sorting
use tellstone.Prelude.{
  ℕ, zero, suc, Bool, true, false, not, ◌&&◌, ◌||◌, List, [], ◌∷◌, ◌++◌, length, ltb, if◌then◌else◌,
}

-- pendingHandshake
pub record Pending : Type 0 where
  pub conn : ℕ
  pub finished : Bool
  pub completed : Bool
  pub deadline : ℕ

-- track
unfoldable pub track : List Pending → Pending → List Pending
track ps p = ps ++ p ∷ []

abbrev pub last_of : Pending → List Pending → Pending
last_of q [] = q
last_of q (p ∷ ps) = last_of p ps

abbrev pub init_of : Pending → List Pending → List Pending
init_of q [] = []
init_of q (p ∷ ps) = q ∷ init_of p ps

-- h.pending[i:] after the last entry has taken the place of the first and the slice is cut.
unfoldable pub swap_delete : List Pending → List Pending
swap_delete [] = []
swap_delete (p ∷ []) = []
swap_delete (p ∷ q ∷ ps) = last_of q ps ∷ init_of q ps

abbrev pub is_forgotten : Pending → Bool
is_forgotten p = p.finished || p.completed

-- The case i++ of the switch, and its default.
abbrev pub is_early : ℕ → Pending → Bool
is_early now p = not (is_forgotten p) && ltb now p.deadline

abbrev pub is_overdue : ℕ → Pending → Bool
is_overdue now p = not (is_forgotten p) && not (ltb now p.deadline)

-- The loop of sweep on h.pending[:i], h.pending[i:] and the connections closed so far.
unfoldable pub sweep_loop : ℕ → ℕ → List Pending → List Pending → List ℕ → List Pending × List ℕ
unfolding swap_delete
sweep_loop zero now front rest closed = (front ++ rest, closed)
sweep_loop (suc n) now front [] closed = (front, closed)
sweep_loop (suc n) now front (p ∷ ps) closed =
    sweep_loop n now (if is_early now p then front ++ p ∷ [] else front)
      (if is_early now p then ps else swap_delete (p ∷ ps))
      (if is_overdue now p then closed ++ p.conn ∷ [] else closed)

-- sweep: what is left, and what was closed. Every turn of the loop leaves one entry less.
unfoldable pub sweep : ℕ → List Pending → List Pending × List ℕ
unfolding sweep_loop
sweep now pending = sweep_loop (length pending) now [] pending []
