-- ===== src/SpiSdk/Segments/Count.antt =====
-- What the check of the segments counts.
use core_v_mini_mcu.Base.{
  ℕ, zero, suc, ◌+◌, ◌/◌, ◌%◌, bit_and-ones, ◌^◌, ◌≤◌, ◌<◌, ◌≡◌, refl, arith, le_refl, ap, sym, ◌∙◌,
  u32, Bool, true, false, ◌||◌, ◌==◌, if◌then◌else◌, Bool-cases, inl, inr, ℕ_discrete,
}
use core_v_mini_mcu.Bitfield.{bitfield_read}
use core_v_mini_mcu.SpiHost.Word.{spi_validate_cmd, dir_tx_only, dir_rx_only, dir_bidir}
use core_v_mini_mcu.SpiSdk.Segments.{
  Counted, len_words, direction_of, speed_of, count_loop, spi_validate_segments,
}
use core_v_mini_mcu.SpiSdk.Transfer.Issue.{IsValidSegment}
use core_v_mini_mcu.SpiSdk.Types.{Segment}

-- The words that hold a number of bytes.
abbrev pub words_for : ℕ → ℕ
words_for bytes = (bytes + 3) / 4

pub len_words-words_for : (bytes : ℕ) → len_words bytes ≡ words_for bytes
len_words-words_for bytes = ground arith

-- The words that a segment sends, if bit 1 of its mode is set, and those that it receives, if bit 0 is.
abbrev pub words_out : Segment → ℕ
words_out seg = if seg.mode / 2 % 2 == 1 then words_for seg.len else 0

abbrev pub words_in : Segment → ℕ
words_in seg = if seg.mode % 2 == 1 then words_for seg.len else 0

sends :
    (mode : ℕ)
    → (direction_of mode == dir_tx_only || direction_of mode == dir_bidir) ≡ (mode / 2 % 2 == 1)
unfolding bitfield_read
sends mode = ground (arith, bit_and-ones 2 mode)

receives :
    (mode : ℕ)
    → (direction_of mode == dir_rx_only || direction_of mode == dir_bidir) ≡ (mode % 2 == 1)
unfolding bitfield_read
receives mode = ground (arith, bit_and-ones 2 mode)

-- The sum of `n` values from `i` on.
abbrev pub total : (ℕ → ℕ) → ℕ → ℕ → ℕ
total f i zero = 0
total f i (suc n) = f i + total f (i + 1) n

-- The result for segments that are all valid.
abbrev pub accepted : ℕ → ℕ → Counted
accepted tx rx = record { valid = true; tx_count = tx; rx_count = rx }

add_if :
    (b : Bool) (tx n : ℕ)
    → tx < 2 ^ 32
    → (if b then u32 (tx + n) else tx) ≡ u32 (tx + (if b then n else 0))
add_if true tx n word = refl
add_if false tx n word = omega arith

-- The counts after a segment.
next_tx : Segment → ℕ → ℕ
next_tx seg tx =
    if direction_of seg.mode == dir_tx_only || direction_of seg.mode == dir_bidir
    then u32 (tx + len_words seg.len)
    else tx

next_rx : Segment → ℕ → ℕ
next_rx seg rx =
    if direction_of seg.mode == dir_rx_only || direction_of seg.mode == dir_bidir
    then u32 (rx + len_words seg.len)
    else rx

continued :
    (segments : ℕ → Segment) (left i tx rx : ℕ)
    → IsValidSegment (segments i)
    → count_loop segments (suc left) i tx rx
      ≡ count_loop segments left (i + 1) (next_tx (segments i) tx) (next_rx (segments i) rx)
unfolding count_loop next_tx next_rx
continued segments left i tx rx valid =
    ap
      (λ (b : Bool). elim b [
        | true ↦
            count_loop segments left (i + 1) (next_tx (segments i) tx) (next_rx (segments i) rx)
        | false ↦ record { valid = false; tx_count = tx; rx_count = rx }
      ])
      valid

count_loop-total :
    (segments : ℕ → Segment) (left i tx rx : ℕ)
    → ((j : ℕ) → i ≤ j → j < i + left → IsValidSegment (segments j))
    → tx < 2 ^ 32
    → rx < 2 ^ 32
    → count_loop segments left i tx rx
      ≡ accepted
          (u32 (tx + total (λ j. words_out (segments j)) i left))
          (u32 (rx + total (λ j. words_in (segments j)) i left))
unfolding count_loop next_tx next_rx
count_loop-total segments zero i tx rx valid t r =
    let same_tx : u32 (tx + 0) ≡ tx = omega arith in
    let same_rx : u32 (rx + 0) ≡ rx = omega arith in rw (same_tx, same_rx)
count_loop-total segments (suc left) i tx rx valid t r =
    let seg = segments i in
    let more_out = total (λ j. words_out (segments j)) (i + 1) left in
    let more_in = total (λ j. words_in (segments j)) (i + 1) left in
    let tx' = u32 (tx + words_out seg) in
    let rx' = u32 (rx + words_in seg) in
    let sum_out : next_tx seg tx ≡ tx' =
      rw (sends seg.mode, len_words-words_for seg.len)
        (add_if (seg.mode / 2 % 2 == 1) tx (words_for seg.len) t) in
    let sum_in : next_rx seg rx ≡ rx' =
      rw (receives seg.mode, len_words-words_for seg.len)
        (add_if (seg.mode % 2 == 1) rx (words_for seg.len) r) in
    let out : u32 (tx' + more_out) ≡ u32 (tx + (words_out seg + more_out)) = omega arith in
    let inn : u32 (rx' + more_in) ≡ u32 (rx + (words_in seg + more_in)) = omega arith in
    continued segments left i tx rx (valid i (le_refl i) (omega arith))
    ∙ ap (λ (x : ℕ). count_loop segments left (i + 1) x (next_rx seg rx)) sum_out
    ∙ ap (λ (x : ℕ). count_loop segments left (i + 1) tx' x) sum_in
    ∙ count_loop-total segments left (i + 1) tx' rx'
        (λ j ge lt. valid j (omega arith) (omega arith)) (omega arith) (omega arith)
    ∙ ap (λ (x : ℕ). accepted x (u32 (rx' + more_in))) out
    ∙ ap (λ (x : ℕ). accepted (u32 (tx + (words_out seg + more_out))) x) inn

-- If the segments are all valid and there is one, they are accepted, and the counts are the sums, in 32
-- bits, of a quarter of the length, rounded up, of each segment that sends and of each that receives.
pub spi_validate_segments-total :
    (segments : ℕ → Segment) (segments_len tx rx : ℕ)
    → 0 < segments_len
    → ((i : ℕ) → i < segments_len → IsValidSegment (segments i))
    → spi_validate_segments segments segments_len tx rx
      ≡ accepted
          (u32 (total (λ i. words_out (segments i)) 0 segments_len))
          (u32 (total (λ i. words_in (segments i)) 0 segments_len))
unfolding spi_validate_segments
spi_validate_segments-total segments segments_len tx rx nonempty valid =
    let some_there : (segments_len == 0) ≡ false = ground arith in
    let out = total (λ i. words_out (segments i)) 0 segments_len in
    let inn = total (λ i. words_in (segments i)) 0 segments_len in
    let none_out : 0 + out ≡ out = omega arith in
    let none_in : 0 + inn ≡ inn = omega arith in
    rw (some_there, spi_validate_segments)
      (count_loop-total segments segments_len 0 0 0 (λ j ge lt. valid j (omega arith)) (omega arith)
          (omega arith)
        ∙ ap (λ (x : ℕ). accepted (u32 x) (u32 (0 + inn))) none_out
        ∙ ap (λ (x : ℕ). accepted (u32 out) (u32 x)) none_in)

rejected :
    (segments : ℕ → Segment) (left i tx rx : ℕ)
    → spi_validate_cmd (direction_of (segments i).mode) (speed_of (segments i).mode) ≡ false
    → (count_loop segments (suc left) i tx rx).valid ≡ false
unfolding count_loop
rejected segments left i tx rx refused = rw (refused, count_loop)

count_loop-valid :
    (segments : ℕ → Segment) (left i j tx rx : ℕ)
    → (count_loop segments left i tx rx).valid ≡ true
    → i ≤ j
    → j < i + left
    → IsValidSegment (segments j)
unfolding count_loop
count_loop-valid segments zero i j tx rx accepted ge lt = absurd (omega arith)
count_loop-valid segments (suc left) i j tx rx accepted ge lt =
    elim (Bool-cases
      (spi_validate_cmd (direction_of (segments i).mode) (speed_of (segments i).mode))) [
        | inr refused ↦ absurd (ground (arith, accepted, rejected segments left i tx rx refused))
        | inl valid ↦ elim (ℕ_discrete i j) [
          | yes same ↦ rw⁻¹ same valid
          | no other ↦
              count_loop-valid segments left (i + 1) j (next_tx (segments i) tx)
                (next_rx (segments i) rx)
                (sym (ap (λ (c : Counted). c.valid) (continued segments left i tx rx valid))
                  ∙ accepted)
                (omega (arith, other)) (omega arith)
        ]
      ]

-- Segments that are accepted are all valid.
pub spi_validate_segments-IsValidSegment :
    (segments : ℕ → Segment) (segments_len tx rx i : ℕ)
    → (spi_validate_segments segments segments_len tx rx).valid ≡ true
    → i < segments_len
    → IsValidSegment (segments i)
unfolding spi_validate_segments
spi_validate_segments-IsValidSegment segments segments_len tx rx i accepted lt =
    let some_there : (segments_len == 0) ≡ false = ground arith in
    count_loop-valid segments segments_len 0 i 0 0
      (rw (some_there, spi_validate_segments) at accepted) (omega arith) (omega arith)

pub spi_validate_segments-some :
    (segments : ℕ → Segment) (segments_len tx rx : ℕ)
    → (spi_validate_segments segments segments_len tx rx).valid ≡ true
    → 0 < segments_len
unfolding spi_validate_segments
spi_validate_segments-some segments segments_len tx rx accepted =
    elim (Bool-cases (segments_len == 0)) [
      | inr some_there ↦ ground (arith, some_there)
      | inl empty ↦
          let refused : (spi_validate_segments segments segments_len tx rx).valid ≡ false =
            rw (empty, spi_validate_segments) in
          absurd (ground (arith, refused, accepted))
    ]
