-- ===== src/Circular/Held.antt =====
-- What the arrays of the circular buffer (include/tswrite.h) hold while the child is at work, and how
-- an entry comes in behind the others and goes out in front.
use mts_utils.Base.{
  ℕ, zero, suc, ◌+◌, ◌-◌, ◌%◌, ◌≤◌, ◌<◌, ◌≡◌, refl, sym, ap, ◌∙◌, arith, List, [], ◌∷◌, ◌++◌,
  length, set, All, some, get_elem?,
}
use mathlib.Core.Path.{subst}
use mathlib.Core.Option.{some-injective}
use mts_utils.Base.{length-set, length-append}
use mts_utils.Circular.{CircularBufferItem}
use mts_utils.Circular.Steps.{Entry, Child, waiting, sending, stopped}
use mts_utils.Circular.Region.{
  Ahead, mod-Ahead, Ahead-next, Ahead-snoc, IsEntry, Holds, Holds-set, Holds-snoc,
}

-- The number of items in use: those of the entries, and one that the child has read and not yet
-- given back.
abbrev pub in_use : Child → ℕ → ℕ
in_use waiting count = count
in_use sending count = suc count
in_use stopped count = count

-- Where the entries begin that the child has not read.
abbrev pub first : Child → ℕ → ℕ → ℕ
first waiting size start = start
first sending size start = (start + 1) % size
first stopped size start = start

pub record Held (start end size item_size : ℕ) (items : List CircularBufferItem) (child : Child)
    (entries : List Entry) : Type 0 where
  pub two : 2 ≤ size
  pub large : 1 ≤ item_size
  pub count : length items ≡ size
  pub cells : All (λ it. length it.cells ≡ item_size) items
  pub start_in : start < size
  pub end_in : end < size
  pub span : Ahead size start (in_use child (length entries)) ((end + 1) % size)
  pub fits : in_use child (length entries) < size
  pub holds : Holds size items (first child size start) entries

All-set {ℓ} :
    {A : Type ℓ} (P : A → Type 0) (xs : List A) (i : ℕ) (v : A)
    → P v
    → All P xs
    → All P (set xs i v)
All-set P [] i v good all = tt
All-set P (x ∷ xs) zero v good all = (good, all.1)
All-set P (x ∷ xs) (suc i) v good all = (all.0, All-set P xs i v good all.1)

pub All-get {ℓ} :
    {A : Type ℓ} (P : A → Type 0) (xs : List A) (i : ℕ) (x : A)
    → All P xs
    → get_elem? xs i ≡ some x
    → P x
All-get P [] i x all h = cc
All-get P (y ∷ xs) zero x all h = subst P (some-injective _ _ h) all.0
All-get P (y ∷ xs) (suc i) x all h = All-get P xs i x all.1 h

pub in_use-le : (child : Child) (n : ℕ) → n ≤ in_use child n
in_use-le waiting n = omega arith
in_use-le sending n = omega arith
in_use-le stopped n = omega arith

in_use-suc : (child : Child) (n : ℕ) → in_use child (suc n) ≡ suc (in_use child n)
in_use-suc waiting n = refl
in_use-suc sending n = refl
in_use-suc stopped n = refl

in_use-snoc :
    (child : Child) (entries : List Entry) (e : Entry)
    → in_use child (length (entries ++ e ∷ [])) ≡ suc (in_use child (length entries))
in_use-snoc child entries e =
    let one : length (entries ++ e ∷ []) ≡ suc (length entries) =
      omega (arith, length-append entries (e ∷ [])) in
    ap (in_use child) one ∙ in_use-suc child (length entries)

-- From the place behind it is all the way round.
around : (n i next : ℕ) → i < n → next < n → Ahead n i 1 next → Ahead n next (n - 1) i
around n i next i_in next_in one = ground arith

module _ (start end size item_size : ℕ) (items : List CircularBufferItem) where
  -- The item behind the entries is the next that the parent fills.
  pub free :
      (child : Child) (entries : List Entry)
      → Held start end size item_size items child entries
      → (first child size start < size)
        × Ahead size (first child size start) (length entries) ((end + 1) % size)
  free waiting entries held = (held.start_in, held.span)
  free stopped entries held = (held.start_in, held.span)
  free sending entries held =
      let (next_in, one) = mod-Ahead size start 1 held.start_in (omega (arith, held.two)) in
      let (slot_in, far) = mod-Ahead size end 1 held.end_in (omega (arith, held.two)) in
      (
        next_in,
        Ahead-next size start ((start + 1) % size) (length entries) ((end + 1) % size) held.start_in
            next_in slot_in (omega (arith, held.fits)) one held.span,
      )

  pub write_slot :
      (child : Child) (entries : List Entry) (it : CircularBufferItem)
      → length it.cells ≡ item_size
      → Held start end size item_size items child entries
      → Held start end size item_size (set items ((end + 1) % size) it) child entries
  write_slot child entries it full held =
      let (first_in, ahead) = free child entries held in
      let (slot_in, far) = mod-Ahead size end 1 held.end_in (omega (arith, held.two)) in
      record {
        two = held.two;
        large = held.large;
        count = length-set items ((end + 1) % size) it ∙ held.count;
        cells =
            All-set (λ it. length it.cells ≡ item_size) items ((end + 1) % size) it full held.cells;
        start_in = held.start_in;
        end_in = held.end_in;
        span = held.span;
        fits = held.fits;
        holds =
            Holds-set size items (length entries) (first child size start) ((end + 1) % size) it
              entries first_in slot_in (omega (arith, held.fits, in_use-le child (length entries)))
              (omega arith) ahead held.holds;
      }

  pub push :
      (child : Child) (entries : List Entry) (e : Entry) (it : CircularBufferItem)
      → suc (in_use child (length entries)) < size
      → get_elem? items ((end + 1) % size) ≡ some it
      → IsEntry e it
      → Held start end size item_size items child entries
      → Held start ((end + 1) % size) size item_size items child (entries ++ e ∷ [])
  push child entries e it room there good held =
      let (first_in, ahead) = free child entries held in
      let (slot_in, far) = mod-Ahead size end 1 held.end_in (omega (arith, held.two)) in
      let (next_in, next_far) =
        mod-Ahead size ((end + 1) % size) 1 slot_in (omega (arith, held.two)) in
      record {
        two = held.two;
        large = held.large;
        count = held.count;
        cells = held.cells;
        start_in = held.start_in;
        end_in = slot_in;
        span =
            subst (λ k. Ahead size start k (((end + 1) % size + 1) % size))
              (sym (in_use-snoc child entries e))
              (Ahead-snoc size start (in_use child (length entries)) ((end + 1) % size)
                (((end + 1) % size + 1) % size) held.start_in slot_in next_in room held.span
                next_far);
        fits = omega (arith, in_use-snoc child entries e);
        holds =
            Holds-snoc size items (first child size start) ((end + 1) % size) it entries e first_in
              slot_in (omega (arith, held.fits, in_use-le child (length entries))) ahead there good
              held.holds;
      }

  -- The child has read the first entry.
  pub read_first :
      (e : Entry) (entries : List Entry)
      → Held start end size item_size items waiting (e ∷ entries)
      → Held start end size item_size items sending entries
  read_first e entries held = record {
    two = held.two;
    large = held.large;
    count = held.count;
    cells = held.cells;
    start_in = held.start_in;
    end_in = held.end_in;
    span = held.span;
    fits = held.fits;
    holds = held.holds.1;
  }

  -- It gives the item back, with any byte of it changed.
  pub give_back :
      (entries : List Entry) (it : CircularBufferItem)
      → length it.cells ≡ item_size
      → Held start end size item_size items sending entries
      → Held ((start + 1) % size) end size item_size (set items start it) waiting entries
  give_back entries it full held =
      let (next_in, one) = mod-Ahead size start 1 held.start_in (omega (arith, held.two)) in
      record {
        two = held.two;
        large = held.large;
        count = length-set items start it ∙ held.count;
        cells = All-set (λ it. length it.cells ≡ item_size) items start it full held.cells;
        start_in = next_in;
        end_in = held.end_in;
        span = (free sending entries held).1;
        fits = omega (arith, held.fits);
        holds =
            Holds-set size items (size - 1) ((start + 1) % size) start it entries next_in
              held.start_in (omega (arith, held.two)) (omega (arith, held.fits))
              (around size start ((start + 1) % size) held.start_in next_in one) held.holds;
      }

  -- The first entry is given back at once.
  pub drop_first :
      (e : Entry) (entries : List Entry)
      → Held start end size item_size items waiting (e ∷ entries)
      → Held ((start + 1) % size) end size item_size items stopped entries
  drop_first e entries held =
      let (next_in, one) = mod-Ahead size start 1 held.start_in (omega (arith, held.two)) in
      record {
        two = held.two;
        large = held.large;
        count = held.count;
        cells = held.cells;
        start_in = next_in;
        end_in = held.end_in;
        span = (free sending entries (read_first e entries held)).1;
        fits = omega (arith, held.fits);
        holds = held.holds.1;
      }
