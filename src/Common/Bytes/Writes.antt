-- ===== src/Common/Bytes/Writes.antt =====
-- A buffer that is filled from the left: what is written, then what is still to be written.
use hysteria.Common.Lists.{
  length, length-append, length-drop, length-replicate, replicate, set-append, drop,
}
use hysteria.Common.Bytes.{poke, write, overlay, copy}
use Prim.Native.Nat.{ℕ, zero, suc, ◌+◌, ◌-◌, ◌≤◌}
use mathlib.Core.Path.{◌≡◌, refl, ap, ◌∙◌}
use mathlib.Core.Option.{some}
use mathlib.Core.List.{List, [], ◌∷◌, ◌++◌, append_assoc, append-nil}
use native.Mathlib.Omega.{arith}

pub poke-append :
    (front back : List ℕ) (off v x : ℕ)
    → off ≡ length front
    → poke (front ++ (x ∷ back)) off v ≡ some (front ++ (v ∷ back))
unfolding poke
poke-append front back off v x e =
    ground (arith, set-append front back off v x e, length-append front (x ∷ back))

-- Writing `vs` behind what is written already.
pub write-append :
    (front todo vs : List ℕ) (off : ℕ)
    → off ≡ length front
    → length vs ≤ length todo
    → write (front ++ todo) off vs ≡ some ((front ++ vs) ++ drop (length vs) todo)
unfolding write
write-append front todo [] off e h = rw (append-nil front)
write-append front [] (v ∷ vs) off e h = absurd (omega arith)
write-append front (x ∷ todo) (v ∷ vs) off e h = ground (
  arith,
  poke-append front todo off v x e,
  append_assoc front (v ∷ []) todo,
  append_assoc front (v ∷ []) vs,
  length-append front (v ∷ []),
  write-append (front ++ (v ∷ [])) todo vs (off + 1),
)

overlay-append :
    (front todo src : List ℕ) (off : ℕ)
    → off ≡ length front
    → length src ≤ length todo
    → overlay (front ++ todo) off src ≡ front ++ (src ++ drop (length src) todo)
unfolding overlay
overlay-append [] [] [] zero e h = refl
overlay-append [] (x ∷ todo) [] zero e h = refl
overlay-append [] [] (s ∷ src) zero e h = absurd (omega arith)
overlay-append [] (x ∷ todo) (s ∷ src) zero e h =
    ap (◌∷◌ s) (overlay-append [] todo src zero refl (omega arith))
overlay-append [] todo src (suc off) e h = absurd (omega arith)
overlay-append (y ∷ front) todo src zero e h = absurd (omega arith)
overlay-append (y ∷ front) todo src (suc off) e h =
    ap (◌∷◌ y) (overlay-append front todo src off (omega arith) h)

-- Copying `src` behind what is written already, with room for all of it.
pub copy-append :
    (front todo src : List ℕ) (off : ℕ)
    → off ≡ length front
    → length src ≤ length todo
    → copy (front ++ todo) off src ≡ some ((front ++ src) ++ drop (length src) todo, length src)
unfolding copy
copy-append front todo src off e h = ground (
  arith,
  overlay-append front todo src off e h,
  length-append front todo,
  append_assoc front src (drop (length src) todo),
)

-- A buffer whose first `off` bytes, `front`, are written, with `room` bytes left.
pub record Filling (buf front : List ℕ) (off room : ℕ) : Type 0 where
  pub todo : List ℕ
  pub is_buf : buf ≡ front ++ todo
  pub is_off : off ≡ length front
  pub is_room : length todo ≡ room

pub fill_start : (n : ℕ) → Filling (replicate n 0) [] 0 n
fill_start n = record {
  todo = replicate n 0;
  is_buf = refl;
  is_off = refl;
  is_room = length-replicate n 0;
}

pub fill_buffer : (buf : List ℕ) → Filling buf [] 0 (length buf)
fill_buffer buf = record { todo = buf; is_buf = refl; is_off = refl; is_room = refl }

-- The same offset, written otherwise.
pub fill_at :
    {buf front : List ℕ} {off room : ℕ} (off' : ℕ)
    → off' ≡ off
    → Filling buf front off room
    → Filling buf front off' room
fill_at off' e f = record {
  todo = f.todo;
  is_buf = f.is_buf;
  is_off = e ∙ f.is_off;
  is_room = f.is_room;
}

-- A full buffer is what was written.
pub fill_done :
    {buf front : List ℕ} {off room : ℕ} → Filling buf front off room → room ≡ 0 → buf ≡ front
fill_done {buf} {front} f r = go f.todo f.is_buf (f.is_room ∙ r)
  where
    go : (t : List ℕ) → buf ≡ front ++ t → length t ≡ 0 → buf ≡ front
    go [] e l = e ∙ append-nil front
    go (x ∷ t) e l = absurd (omega arith)

module _ {buf front : List ℕ} {off room : ℕ} (f : Filling buf front off room) (src : List ℕ) where
  -- The buffer behind the next piece.
  filled : List ℕ
  filled = (front ++ src) ++ drop (length src) f.todo

  filled-Filling : Filling filled (front ++ src) (off + length src) (room - length src)
  unfolding filled
  filled-Filling = record {
    todo = drop (length src) f.todo;
    is_buf = refl;
    is_off = omega (arith, f.is_off, length-append front src);
    is_room = omega (arith, f.is_room, length-drop (length src) f.todo);
  }

  pub write_fills :
      length src ≤ room
      → (b : List ℕ) × (write buf off src ≡ some b)
        × Filling b (front ++ src) (off + length src) (room - length src)
  unfolding filled
  write_fills h = (
    filled,
    rw f.is_buf (write-append front f.todo src off f.is_off (omega (arith, f.is_room))),
    filled-Filling,
  )

  pub poke_fills :
      (v : ℕ)
      → src ≡ v ∷ []
      → 1 ≤ room
      → (b : List ℕ) × (poke buf off v ≡ some b)
        × Filling b (front ++ src) (off + length src) (room - length src)
  unfolding filled
  poke_fills v e h = (filled, rw (f.is_buf, e) (go f.todo f.is_room), filled-Filling)
    where
      go :
          (t : List ℕ)
          → length t ≡ room
          → poke (front ++ t) off v ≡ some ((front ++ (v ∷ [])) ++ drop 1 t)
      go [] l = absurd (omega arith)
      go (x ∷ t) l = rw append_assoc (poke-append front t off v x f.is_off)

  pub copy_fills :
      length src ≤ room
      → (b : List ℕ) × (copy buf off src ≡ some (b, length src))
        × Filling b (front ++ src) (off + length src) (room - length src)
  unfolding filled
  copy_fills h = (
    filled,
    rw f.is_buf (copy-append front f.todo src off f.is_off (omega (arith, f.is_room))),
    filled-Filling,
  )
