-- ===== src/PesReader/Feeds.antt =====
-- The payloads of TS packets, which start_new_PES_packet and continue_PES_packet of include/pes.h take
-- one after another, and what a call for another PID leaves as it was.
use mts_utils.Base.{
  ℕ, ◌<◌, ◌≡◌, ◌≢◌, ◌==◌, ◌⊎◌, refl, sym, ap, ◌∙◌, arith, if◌then◌else◌, Bool, true, false, List,
  [], ◌∷◌, ◌++◌, length, Option, none, some, Option-cases, inl, inr,
}
use mts_utils.Base.{length-append}
use mts_utils.Base.Outcome.{Outcome, ok, ◌>>=◌}
use mathlib.Core.Path.{subst}
use mts_utils.PesReader.{
  PesPacketData, PesReader, extend_pes_packet_data, is_finished, start_new_pes_packet,
  continue_pes_packet, answer,
}
use mts_utils.PesReader.Laws.{IsPeslist, in_progress}
use mts_utils.PesReader.Calls.{continue-Feeds, continue-none, start-StartFeeds, unbounded}

-- The payload of a TS packet, and whether it starts a PES packet.
pub record Feed : Type 0 where
  pub is_start : Bool
  pub pid : ℕ
  pub posn : ℕ
  pub payload : List ℕ

unfoldable pub feed : PesReader → Feed → Outcome (Option PesPacketData × PesReader)
feed reader f = elim f.is_start [
  | true ↦ start_new_pes_packet (record reader { posn = f.posn }) f.pid f.payload
  | false ↦ continue_pes_packet (record reader { posn = f.posn }) f.pid f.payload
]

abbrev pub Finished : Type 0
Finished = List (ℕ × PesPacketData)

abbrev pub with_finished : ℕ → Option PesPacketData → Finished → Finished
with_finished pid none more = more
with_finished pid (some packet) more = (pid, packet) ∷ more

-- The packets that the calls finish, each with the PID of the call.
unfoldable pub run : PesReader → List Feed → Outcome Finished
run reader [] = ok []
run reader (f ∷ fs) = feed reader f >>= λ (finished, after).
    run after fs >>= λ more. ok (with_finished f.pid finished more)

abbrev pub finished_for : ℕ → Finished → List PesPacketData
finished_for p [] = []
finished_for p ((pid, packet) ∷ more) =
    if pid == p then packet ∷ finished_for p more else finished_for p more

-- The bytes that come for a PID.
abbrev pub bytes_for : ℕ → List Feed → List ℕ
bytes_for p [] = []
bytes_for p (f ∷ fs) = if f.pid == p then f.payload ++ bytes_for p fs else bytes_for p fs

-- A payload of another PID, which starts a packet well if it starts one; or one that continues.
abbrev pub IsFeed : ℕ → Feed → Type 0
IsFeed p f =
    ((f.pid ≢ p)
      × ((f.is_start ≡ false)
          ⊎ ((f.is_start ≡ true)
              × ((sid : ℕ) × (hi : ℕ) × (lo : ℕ) × (rest : List ℕ) × (f.payload
                    ≡ 0 ∷ 0 ∷ 1 ∷ sid ∷ hi ∷ lo ∷ rest)))))
    ⊎ ((f.pid ≡ p) × (f.is_start ≡ false))

abbrev pub partial : List ℕ → ℕ → ℕ → Bool → PesPacketData
partial bytes stated posn is_video = record {
  bytes = some bytes;
  data_len = length bytes;
  length = stated;
  posn = posn;
  is_video = is_video;
}

pub extend-partial :
    (bytes payload : List ℕ) (stated posn : ℕ) (is_video : Bool)
    → extend_pes_packet_data (partial bytes stated posn is_video) payload
      ≡ partial (bytes ++ payload) stated posn is_video
unfolding extend_pes_packet_data
extend-partial bytes payload stated posn is_video =
    ap (λ (t : ℕ). record (partial (bytes ++ payload) stated posn is_video) { data_len = t })
      (sym (length-append bytes payload))

pub unfinished :
    (bytes : List ℕ) (stated posn : ℕ) (is_video : Bool)
    → length bytes < stated
    → is_finished (partial bytes stated posn is_video) ≡ false
unfolding is_finished
unfinished bytes stated posn is_video h = ground arith

pub whole :
    (bytes : List ℕ) (stated posn : ℕ) (is_video : Bool)
    → length bytes ≡ stated
    → is_finished (partial bytes stated posn is_video) ≡ true
unfolding is_finished
whole bytes stated posn is_video h = ground arith

-- A call for another PID
pub record Aside (reader : PesReader) (p : ℕ) (result : Outcome (Option PesPacketData × PesReader))
    : Type 0 where
  pub finished : Option PesPacketData
  pub after : PesReader
  pub succeeds : result ≡ ok (finished, after)
  pub good : IsPeslist after.packets
  pub kept : in_progress after.packets p ≡ in_progress reader.packets p

packets-answer :
    (reader : PesReader) (ended finished : Option PesPacketData)
    → (answer reader ended finished).1.packets ≡ reader.packets
packets-answer reader none finished = refl
packets-answer reader (some packet) finished = refl

continue-Aside :
    (reader : PesReader) (p pid : ℕ) (payload : List ℕ)
    → IsPeslist reader.packets
    → pid ≢ p
    → Aside reader p (continue_pes_packet reader pid payload)
continue-Aside reader p pid payload good differ =
    elim (Option-cases (in_progress reader.packets pid)) [
      | inl e ↦ record {
        finished = none;
        after = reader;
        succeeds = continue-none reader pid payload e;
        good = good;
        kept = refl;
      }
      | inr (before, e) ↦
          let feeds = continue-Feeds reader pid before payload good e in
          record {
            finished = feeds.finished;
            after = record reader { packets = feeds.after };
            succeeds = feeds.succeeds;
            good = feeds.good;
            kept = feeds.others p (λ same. differ (sym same));
          }
    ]

start-Aside :
    (reader : PesReader) (p pid sid hi lo : ℕ) (rest : List ℕ)
    → IsPeslist reader.packets
    → pid ≢ p
    → Aside reader p (start_new_pes_packet reader pid (0 ∷ 0 ∷ 1 ∷ sid ∷ hi ∷ lo ∷ rest))
start-Aside reader p pid sid hi lo rest good differ =
    let feeds = start-StartFeeds reader pid sid hi lo rest good in
    let ended = unbounded (in_progress reader.packets pid) in
    let next_reader = record reader { packets = feeds.after } in
    let same = packets-answer next_reader ended feeds.finished in
    record {
      finished = (answer next_reader ended feeds.finished).0;
      after = (answer next_reader ended feeds.finished).1;
      succeeds = feeds.succeeds;
      good = subst IsPeslist (sym same) feeds.good;
      kept = ap (λ t. in_progress t p) same ∙ feeds.others p (λ e. differ (sym e));
    }

pub aside :
    (reader : PesReader) (p : ℕ) (f : Feed)
    → IsPeslist reader.packets
    → f.pid ≢ p
    → (f.is_start ≡ false)
      ⊎ ((f.is_start ≡ true)
          × ((sid : ℕ) × (hi : ℕ) × (lo : ℕ) × (rest : List ℕ) × (f.payload
                ≡ 0 ∷ 0 ∷ 1 ∷ sid ∷ hi ∷ lo ∷ rest)))
    → Aside (record reader { posn = f.posn }) p (feed reader f)
unfolding feed
aside reader p f good differ (inl continues) =
    rw (continues, feed)
      (continue-Aside (record reader { posn = f.posn }) p f.pid f.payload good differ)
aside reader p f good differ (inr (starts, (sid, hi, lo, rest, e))) =
    rw (starts, feed)
      (subst
        (λ t.
          Aside (record reader { posn = f.posn }) p
            (start_new_pes_packet (record reader { posn = f.posn }) f.pid t))
        (sym e) (start-Aside (record reader { posn = f.posn }) p f.pid sid hi lo rest good differ))
