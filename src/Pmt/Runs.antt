-- ===== src/Pmt/Runs.antt =====
-- Program map tables with concrete streams.
use mts_utils.Base.{ℕ, ◌≡◌, ◌↔◌, ◌⊎◌, refl, arith, inr, List, [], ◌∷◌, false, true, none, some, All}
use mts_utils.Pmt.{Pmt, PmtStream, fresh_stream, same_pmt, bytes_of}
use mts_utils.Pmt.Laws.{IsValid, IsStream, streams_of}
use mts_utils.Pmt.Laws.Add.{Added, RefusesStream, add_stream_to_pmt_lem}
use mts_utils.Pmt.Laws.Remove.{Removed, LacksStream, remove_stream_from_pmt_lem}
use mts_utils.Pmt.Same.{HasAlike, same_pmt_lem}

abbrev video : PmtStream
video = record { stream_type = 0x1b; elementary_pid = 0x100; es_info_length = 0; es_info = none }

abbrev audio : PmtStream
audio = record {
  stream_type = 0x03;
  elementary_pid = 0x101;
  es_info_length = 2;
  es_info = some (0x0A ∷ 0x00 ∷ []);
}

abbrev table : List PmtStream → Pmt
table streams = record {
  program_number = 1;
  version_number = 0;
  pcr_pid = 0x100;
  program_info_length = 0;
  program_info = none;
  streams_size = 5;
  num_streams = 2;
  streams = streams;
}

abbrev video_first : Pmt
video_first = table (video ∷ audio ∷ fresh_stream ∷ fresh_stream ∷ fresh_stream ∷ [])

abbrev audio_first : Pmt
audio_first = table (audio ∷ video ∷ fresh_stream ∷ fresh_stream ∷ fresh_stream ∷ [])

abbrev two_bytes : List ℕ
two_bytes = 1 ∷ 2 ∷ []

video-IsStream : IsStream video
video-IsStream = record { legal = refl; counted = refl; short = omega arith }

audio-IsStream : IsStream audio
audio-IsStream = record { legal = refl; counted = refl; short = omega arith }

video_first-IsValid : IsValid video_first
video_first-IsValid = record {
  cells = refl;
  fits = omega arith;
  good = (video-IsStream, (audio-IsStream, tt));
  counted = refl;
  short = omega arith;
  version = omega arith;
  pcr = inr refl;
}

audio_first-IsValid : IsValid audio_first
audio_first-IsValid = record {
  cells = refl;
  fits = omega arith;
  good = (audio-IsStream, (video-IsStream, tt));
  counted = refl;
  short = omega arith;
  version = omega arith;
  pcr = inr refl;
}

add_stream_to_pmt_example :
    RefusesStream video_first 0x102 0x81 (5 ∷ 6 ∷ [])
    ⊎ ((pmt' : Pmt) × (stream : PmtStream) × Added video_first 0x102 0x81 (5 ∷ 6 ∷ []) pmt' stream)
add_stream_to_pmt_example =
    add_stream_to_pmt_lem video_first 0x102 0x81 (5 ∷ 6 ∷ []) video_first-IsValid

remove_stream_from_pmt_example :
    LacksStream video_first 0x100
    ⊎ ((index : ℕ) × (pmt' : Pmt) × Removed video_first 0x100 index pmt')
remove_stream_from_pmt_example = remove_stream_from_pmt_lem video_first 0x100 video_first-IsValid

same_pmt_example : (same_pmt false (some video_first) (some audio_first) ≡ true) ↔ (
    (video_first.pcr_pid ≡ audio_first.pcr_pid)
    × (video_first.version_number ≡ audio_first.version_number)
    × (bytes_of video_first.program_info ≡ bytes_of audio_first.program_info)
    × (video_first.num_streams ≡ audio_first.num_streams)
    × All (HasAlike audio_first) (streams_of video_first))
same_pmt_example = same_pmt_lem video_first audio_first video_first-IsValid audio_first-IsValid
