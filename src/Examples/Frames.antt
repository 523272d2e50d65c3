-- ===== src/Examples/Frames.antt =====
-- Frames, messages and streams.
use ts2phc_go.Common.{
  ℕ, ◌+◌, ◌≡◌, refl, some, List, [], ◌∷◌, ◌++◌, map, take, drop, length, All, arith,
}
use ts2phc_go.Common.Word.{IsByte}
use ts2phc_go.Ubx.Frame.Damage.{carrying, decode-one_byte}
use ts2phc_go.Ubx.Frame.{err, bad_checksum, Frame, ok, decode, encode, checksum, feed_all}
use ts2phc_go.Ubx.Frame.Codec.{decode-encode, decode_ok-encode}
use ts2phc_go.Ubxcfg.{stop, round, parse_frames}
use ts2phc_go.Ubxcfg.Stream.{parse_frames_total, parse_frames-append}
use ts2phc_go.Ubxcfg.Ack.{got, judge_frames, await_ack}
use ts2phc_go.Ubxcfg.Wait.{flatten, verdict, await_ack-stream}

decode-encode_example :
    decode (encode 6 138 (1 ∷ 2 ∷ []) ++ (9 ∷ []))
    ≡ ok (record { class = 6; id = 138; payload = 1 ∷ 2 ∷ [] })
decode-encode_example = decode-encode 6 138 (1 ∷ 2 ∷ []) (9 ∷ []) (omega arith)

abbrev short_frame : List ℕ
short_frame = 0xB5 ∷ 0x62 ∷ 6 ∷ 1 ∷ 1 ∷ 0 ∷ 5 ∷ 13 ∷ 42 ∷ []

abbrev short_content : Frame
short_content = record { class = 6; id = 1; payload = 5 ∷ [] }

short_frame-IsByte : All IsByte short_frame
short_frame-IsByte = ground arith

short_frame_decodes : decode short_frame ≡ ok short_content
unfolding decode checksum feed_all
short_frame_decodes = refl

decode_ok-encode_example :
    short_frame ≡ encode 6 1 (5 ∷ []) ++ drop (length short_content.payload + 8) short_frame
decode_ok-encode_example =
    decode_ok-encode short_frame {f = short_content} short_frame-IsByte short_frame_decodes

abbrev two_frames : List ℕ
two_frames = 0 ∷ short_frame ++ short_frame

parse_frames_total_example :
    (fs : List Frame) × (rem : List ℕ) × (parse_frames two_frames ≡ some (fs, rem))
parse_frames_total_example = parse_frames_total two_frames

abbrev first_part : List ℕ
first_part = 0 ∷ 0xB5 ∷ 0x62 ∷ 6 ∷ 1 ∷ []

abbrev second_part : List ℕ
second_part = 1 ∷ 0 ∷ 5 ∷ 13 ∷ 42 ∷ []

first_run : parse_frames first_part ≡ some ([], 0 ∷ 0xB5 ∷ 0x62 ∷ 6 ∷ 1 ∷ [])
unfolding parse_frames round decode checksum feed_all
first_run = refl

second_run : parse_frames (first_part ++ second_part) ≡ some (short_content ∷ [], [])
unfolding parse_frames round decode checksum feed_all
second_run = refl

parse_frames-append_example :
    parse_frames (first_part ++ second_part) ≡ some ([] ++ (short_content ∷ []), [])
parse_frames-append_example = parse_frames-append first_part second_part first_run second_run

abbrev ack_frame : List ℕ
ack_frame = 0xB5 ∷ 0x62 ∷ 5 ∷ 1 ∷ 2 ∷ 0 ∷ 6 ∷ 138 ∷ 152 ∷ 193 ∷ []

abbrev ack_content : Frame
ack_content = record { class = 5; id = 1; payload = 6 ∷ 138 ∷ [] }

nothing_yet : round [] ≡ stop
unfolding round
nothing_yet = refl

ack_run :
    parse_frames ([] ++ flatten (take 4 ack_frame ∷ drop 4 ack_frame ∷ []))
    ≡ some (ack_content ∷ [], [])
unfolding parse_frames round decode checksum feed_all
ack_run = refl

await_ack-stream_example :
    await_ack 6 138 [] (map got (take 4 ack_frame ∷ drop 4 ack_frame ∷ []))
    ≡ verdict (judge_frames 6 138 (ack_content ∷ []))
await_ack-stream_example =
    await_ack-stream 6 138 [] (take 4 ack_frame ∷ drop 4 ack_frame ∷ []) nothing_yet ack_run

decode-one_byte_example :
    decode (carrying 6 1 ((7 ∷ []) ++ 5 ∷ []) ((7 ∷ []) ++ 4 ∷ []) (9 ∷ [])) ≡ err bad_checksum
decode-one_byte_example =
    decode-one_byte 6 1 5 4 (7 ∷ []) [] (9 ∷ []) (omega arith) (omega arith)
      (λ e. absurd (omega (arith, e))) (omega arith)
