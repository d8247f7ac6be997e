-- ===== src/Uart/Bytes.antt =====
-- The bytes that go over a serial line whose device is ready after every access.
use mathlib.Core.Option
use core_v_mini_mcu.Base.{
  ℕ, zero, suc, ◌+◌, ◌-◌, ◌*◌, ◌/◌, ◌%◌, ◌^◌, ◌≤◌, ◌<◌, ◌≡◌, ◌∙◌, refl, ap, subst, arith, bit_and,
  bit_and-ones, bit_or, bit_or-lt, zero-bit_and, not32, test_bit, test_bit_ext, test_bit-bit_or,
  test_bit-zero, Bool, true, false, Bool-cases, inl, inr, not, ltb, leb, ◌==◌, ◌&&◌, if◌then◌else◌,
  Option, none, some, List, [], ◌∷◌, ◌++◌, append_assoc, append-nil, Gives, gives, Gives-bind,
  Gives-map, Gives-mono,
}
use core_v_mini_mcu.Bitfield.{bitfield_field32_read, bitfield_field32_write}
use core_v_mini_mcu.Uart.{
  Line, Setup, settle, byte_field, uart_tx_full, uart_tx_idle, uart_rx_empty, wait_while, put_byte,
  uart_putchar, uart_rx_fifo_read, uart_getchar, write_loop, uart_write, read_loop, uart_read,
}

-- A line with room for a byte, nothing under way and a byte to read.
pub record IsOpen (l : Line) : Type 0 where
  pub room : uart_tx_full l ≡ false
  pub idle : uart_tx_idle l ≡ true
  pub filled : uart_rx_empty l ≡ false

pub record Serves (setup : Setup) : Type 0 where
  pub free : (l : Line) → IsOpen (settle setup l)
  pub some_round : 0 < setup.rounds

-- An open line, and what it has taken and given so far.
pub record At (sent : List ℕ) (incoming : ℕ → ℕ) (taken : ℕ) (l : Line) : Type 0 where
  pub free : IsOpen l
  pub same_sent : l.sent ≡ sent
  pub same_incoming : l.incoming ≡ incoming
  pub same_taken : l.taken ≡ taken

-- The words of the bytes from `i` on.
abbrev pub words_of : (ℕ → ℕ) → ℕ → ℕ → List ℕ
words_of bytes zero i = []
words_of bytes (suc left) i = bytes i % 2 ^ 8 ∷ words_of bytes left (i + 1)

zero-bit_or : (b : ℕ) → b < 2 ^ 32 → bit_or 0 b ≡ b
zero-bit_or b small =
    test_bit_ext 32 (bit_or 0 b) b (bit_or-lt 32 0 b (omega arith) small) small
      (λ j below. test_bit-bit_or 0 b j ∙ rw (test_bit-zero j) refl)

byte_word : (byte : ℕ) → bitfield_field32_write 0 byte_field byte ≡ byte % 2 ^ 8
unfolding bitfield_field32_write core_v_mini_mcu.Base.shl32
byte_word byte =
    let cut = bit_and-ones 8 byte in
    rw (zero-bit_and (not32 (0xff * 2 ^ 0 % 2 ^ 32)), cut)
      (zero-bit_or (byte % 2 ^ 8 * 2 ^ 0 % 2 ^ 32) (omega arith) ∙ omega arith)

byte_read : (word : ℕ) → bitfield_field32_read word byte_field ≡ word % 2 ^ 8
unfolding bitfield_field32_read
byte_read word = let whole : word / 2 ^ 0 ≡ word = omega arith in rw whole (bit_and-ones 8 word)

wait_while-now :
    (setup : Setup) (holds : Line → Bool) (rounds : ℕ) (l : Line)
    → 0 < rounds
    → holds l ≡ false
    → wait_while setup holds rounds l ≡ some l
unfolding wait_while
wait_while-now setup holds zero l some_round over = absurd (omega arith)
wait_while-now setup holds (suc rounds) l some_round over = rw (over, wait_while) refl

module _ (setup : Setup) (serves : Serves setup) (incoming : ℕ → ℕ) where
  putchar-At :
      (byte taken : ℕ) (sent : List ℕ) (l : Line)
      → At sent incoming taken l
      → Gives (At (sent ++ byte % 2 ^ 8 ∷ []) incoming taken) (uart_putchar setup byte l)
  unfolding uart_putchar mathlib.Core.Option.bind put_byte
  putchar-At byte taken sent l now =
      let l1 = put_byte setup byte l in
      let still =
        serves.free (record l { sent = l.sent ++ bitfield_field32_write 0 byte_field byte ∷ [] }) in
      rw
        (
          wait_while-now setup uart_tx_full setup.rounds l serves.some_round now.free.room,
          wait_while-now setup (λ (l2 : Line). not (uart_tx_idle l2)) setup.rounds l1
              serves.some_round (ap not still.idle),
        )
        (gives (record {
          free = still;
          same_sent = rw (now.same_sent, byte_word byte) refl;
          same_incoming = now.same_incoming;
          same_taken = now.same_taken;
        }))

  write_loop-At :
      (bytes : ℕ → ℕ) (left i taken : ℕ) (sent : List ℕ) (l : Line)
      → At sent incoming taken l
      → Gives (At (sent ++ words_of bytes left i) incoming taken) (write_loop setup bytes left i l)
  unfolding write_loop
  write_loop-At bytes zero i taken sent l now = rw (append-nil sent) (gives now)
  write_loop-At bytes (suc left) i taken sent l now =
      let sent1 = sent ++ bytes i % 2 ^ 8 ∷ [] in
      Gives-bind (At sent1 incoming taken) (At (sent ++ words_of bytes (suc left) i) incoming taken)
        (putchar-At (bytes i) taken sent l now)
        (λ l1 next.
          subst
            (λ (s : List ℕ). Gives (At s incoming taken) (write_loop setup bytes left (i + 1) l1))
            (append_assoc sent (bytes i % 2 ^ 8 ∷ []) (words_of bytes left (i + 1)))
            (write_loop-At bytes left (i + 1) taken sent1 l1 next))

  getchar-At :
      (taken : ℕ) (sent : List ℕ) (l : Line)
      → At sent incoming taken l
      → Gives
          (λ (r : Line × ℕ). At sent incoming (taken + 1) r.0 × (r.1 ≡ incoming taken % 2 ^ 8))
          (uart_getchar setup l)
  unfolding uart_getchar uart_rx_fifo_read
  getchar-At taken sent l now =
      let word : l.incoming l.taken ≡ incoming taken =
        rw (now.same_incoming, now.same_taken) refl in
      rw (wait_while-now setup uart_rx_empty setup.rounds l serves.some_round now.free.filled) (
        gives (
          record {
            free = serves.free (record l { taken = l.taken + 1 });
            same_sent = now.same_sent;
            same_incoming = now.same_incoming;
            same_taken = rw now.same_taken refl;
          },
          byte_read (l.incoming l.taken) ∙ ap (λ (w : ℕ). w % 2 ^ 8) word,
        ))

  -- The bytes from `i` on are those that came from `first` on.
  abbrev pub Holds : ℕ → ℕ → ℕ → (ℕ → ℕ) → (ℕ → ℕ) → Type 0
  Holds first i left old new =
      (j : ℕ)
      → new j ≡ (if leb i j && ltb j (i + left) then incoming (first + (j - i)) % 2 ^ 8 else old j)

  Holds-first :
      (taken i left : ℕ) (old new : ℕ → ℕ) (byte : ℕ)
      → byte ≡ incoming taken % 2 ^ 8
      → Holds (taken + 1) (i + 1) left (λ j. if j == i then byte else old j) new
      → Holds taken i (suc left) old new
  Holds-first taken i left old new byte same later j = elim (Bool-cases (j == i)) [
    | inl here ↦
        let at : taken + (j - i) ≡ taken = ground (arith, here) in
        let not_later : (leb (i + 1) j && ltb j (i + 1 + left)) ≡ false = ground (arith, here) in
        let inside : (leb i j && ltb j (i + suc left)) ≡ true = ground (arith, here) in
        rw (inside, at) (rw (not_later, here) at (later j) ∙ same)
    | inr other ↦ elim (Bool-cases (leb (i + 1) j && ltb j (i + 1 + left))) [
      | inl among ↦
          let at : taken + 1 + (j - (i + 1)) ≡ taken + (j - i) = ground (arith, among) in
          let inside : (leb i j && ltb j (i + suc left)) ≡ true = ground (arith, among) in
          rw inside (rw (among, at) at (later j))
      | inr outside ↦
          let out : (leb i j && ltb j (i + suc left)) ≡ false = ground (arith, outside, other) in
          rw out (rw (outside, other) at (later j))
    ]
  ]

  read_loop-At :
      (left i taken : ℕ) (sent : List ℕ) (l : Line) (buffer : ℕ → ℕ)
      → At sent incoming taken l
      → Gives
          (λ (r : Line × (ℕ → ℕ)).
            At sent incoming (taken + left) r.0 × Holds taken i left buffer r.1)
          (read_loop setup left i l buffer)
  unfolding read_loop
  read_loop-At zero i taken sent l buffer now =
      let same : taken + 0 ≡ taken = omega arith in
      gives (
        subst (λ (t : ℕ). At sent incoming t l) (omega arith) now,
        λ j. let none_here : (leb i j && ltb j (i + 0)) ≡ false = ground arith in rw none_here refl,
      )
  read_loop-At (suc left) i taken sent l buffer now =
      let P = λ (r : Line × ℕ). At sent incoming (taken + 1) r.0 × (r.1 ≡ incoming taken % 2 ^ 8) in
      let Q = λ (r : Line × (ℕ → ℕ)).
        At sent incoming (taken + suc left) r.0 × Holds taken i (suc left) buffer r.1 in
      Gives-bind P Q (getchar-At taken sent l now) (λ r got.
        let stored = λ (j : ℕ). if j == i then r.1 else buffer j in
        Gives-mono
          (λ (c : Line × (ℕ → ℕ)).
            At sent incoming (taken + 1 + left) c.0 × Holds (taken + 1) (i + 1) left stored c.1)
          Q (read_loop-At left (i + 1) (taken + 1) sent r.0 stored got.0)
          (λ c done. (
            subst (λ (t : ℕ). At sent incoming t c.0) (omega arith) done.0,
            Holds-first taken i left buffer c.1 r.1 got.1 done.1,
          )))

  -- On a line whose device is ready after every access, a write sends the bytes of its buffer in
  -- their order, cut to eight bits, and a read leaves the next bytes that came in its buffer, in
  -- their order, and no other; both end, with the number of bytes as their result.
  pub uart_write-uart_read :
      (bytes : ℕ → ℕ) (len taken : ℕ) (sent : List ℕ) (l : Line) (buffer : ℕ → ℕ)
      → At sent incoming taken l
      → Gives
          (λ (r : Line × ℕ). At (sent ++ words_of bytes len 0) incoming taken r.0 × (r.1 ≡ len))
          (uart_write setup bytes len l)
        × Gives
            (λ (r : (Line × (ℕ → ℕ)) × ℕ).
              At sent incoming (taken + len) r.0.0 × Holds taken 0 len buffer r.0.1 × (r.1 ≡ len))
            (uart_read setup len l buffer)
  unfolding uart_write uart_read
  uart_write-uart_read bytes len taken sent l buffer now = (
    Gives-map (At (sent ++ words_of bytes len 0) incoming taken)
        (λ (r : Line × ℕ). At (sent ++ words_of bytes len 0) incoming taken r.0 × (r.1 ≡ len))
        (write_loop-At bytes len 0 taken sent l now) (λ l1 next. (next, refl)),
    Gives-map
        (λ (r : Line × (ℕ → ℕ)). At sent incoming (taken + len) r.0 × Holds taken 0 len buffer r.1)
        (λ (r : (Line × (ℕ → ℕ)) × ℕ).
          At sent incoming (taken + len) r.0.0 × Holds taken 0 len buffer r.0.1 × (r.1 ≡ len))
        (read_loop-At len 0 taken sent l buffer now) (λ r next. (next.0, next.1, refl)),
  )
