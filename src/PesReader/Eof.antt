-- ===== src/PesReader/Eof.antt =====
-- The packet that the end of the file ends, check_for_EOF_packet of include/pes.h.
use mts_utils.Base.{
  ℕ, zero, suc, ◌+◌, ◌≤◌, ◌≡◌, refl, sym, ap, ◌∙◌, arith, ◌==◌, if◌then◌else◌, Bool, false,
  Bool-cases, inl, inr, Option, none, some, Option-cases, List, [], ◌∷◌, take, get_or, get_elem?,
}
use mts_utils.Base
use mts_utils.Arrays.{search_loop}
use mts_utils.Arrays.Loops.{find_index, search_loop-eq-find_index}
use mts_utils.PesReader.{
  PesPacketData, PesReader, Peslist, set_entry, eof_loop, check_for_eof_packet,
}
use mts_utils.PesReader.Laws.{IsPeslist}

-- A packet of unknown length that is in progress
abbrev pub is_endless : Option PesPacketData → Bool
is_endless none = false
is_endless (some packet) = packet.length == 0

-- An entry handed over, and its pointer cleared; or nothing
abbrev pub taken : Peslist → Option ℕ → Option PesPacketData × Peslist
taken list none = (none, list)
taken list (some ii) = (get_or list.packet ii none, set_entry list ii none)

get_or-get_elem? {ℓ} :
    {A : Type ℓ} (xs : List A) (i : ℕ) (d : A)
    → suc i ≤ Base.length xs
    → get_elem? xs i ≡ some (get_or xs i d)
get_or-get_elem? [] i d h = absurd (omega (arith, h))
get_or-get_elem? (x ∷ xs) zero d h = refl
get_or-get_elem? (x ∷ xs) (suc i) d h = get_or-get_elem? xs i d (omega (arith, h))

search_step :
    (left ii : ℕ) (cells : List (Option PesPacketData)) (cell : Option PesPacketData)
    → get_elem? cells ii ≡ some cell
    → search_loop is_endless (suc left) ii cells
      ≡ (if is_endless cell then some ii else search_loop is_endless left (suc ii) cells)
unfolding search_loop
search_step left ii cells cell h = rw (h, search_loop) refl

eof_loop_lem :
    (left ii : ℕ) (list : Peslist)
    → ii + left ≤ Base.length list.packet
    → eof_loop left ii list ≡ taken list (search_loop is_endless left ii list.packet)
unfolding eof_loop search_loop
eof_loop_lem zero ii list h = refl
eof_loop_lem (suc left) ii list h =
    let rest = eof_loop_lem left (suc ii) list (omega (arith, h)) in
    let there = get_or-get_elem? list.packet ii none (omega (arith, h)) in
    let found = λ (cell : Option PesPacketData) (e : get_or list.packet ii none ≡ cell).
      search_step left ii list.packet cell (there ∙ ap some e) in
    elim (Option-cases (get_or list.packet ii none)) [
      | inl e ↦ rw (found none e) (rw (e, eof_loop) rest)
      | inr (packet, e) ↦ elim (Bool-cases (packet.length == 0)) [
        | inl endless ↦ rw (found (some packet) e) (
            rw (e, endless, eof_loop)
              (ap (λ (t : Option PesPacketData). (t, set_entry list ii none)) (sym e)))
        | inr long ↦ rw (found (some packet) e) (rw (e, long, eof_loop) rest)
      ]
    ]

abbrev pub with_packets :
    PesReader → Option PesPacketData × Peslist → Option PesPacketData × PesReader
with_packets reader (packet, packets) = (packet, record reader { packets = packets })

-- On a sound list, check_for_EOF_packet hands over the first packet of length 0 among the entries
-- in use, and clears its entry; if there is none, it hands over nothing and changes nothing.
pub check_for_eof_packet_lem :
    (reader : PesReader)
    → IsPeslist reader.packets
    → check_for_eof_packet reader
      ≡ with_packets reader (
          taken reader.packets
            (find_index is_endless (take reader.packets.length reader.packets.packet)))
unfolding check_for_eof_packet
check_for_eof_packet_lem reader good =
    let inside : reader.packets.length ≤ Base.length reader.packets.packet =
      omega (arith, good.cells, good.inside) in
    ap (with_packets reader) (
      eof_loop_lem reader.packets.length 0 reader.packets (omega (arith, inside))
      ∙ ap (taken reader.packets)
          (search_loop-eq-find_index is_endless reader.packets.length reader.packets.packet inside))
