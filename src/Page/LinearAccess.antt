-- ===== src/Page/LinearAccess.antt =====
-- `LinearHost` as a memory: its bounds and its round trip.
use os_emulation.Base.{
  ℕ, ◌-◌, ◌*◌, ◌%◌, ◌^◌, ◌<◌, ◌≡◌, refl, ap, ◌∙◌, ltb, le→ltb, true, false, Bool-cases, ltb→le, inl,
  inr, some, ok, err, ◌>>=◌, length, arith,
}
use os_emulation.Page.Types.{AccessWidth, bytes, out_of_bounds}
use os_emulation.Page.Words.{le_word-bytes}
use os_emulation.Page.OnDemandLaws.{bytes_le}
use os_emulation.Page.LinearLaws.{
  IsHost, InRange, in_range, not-InRange, read_linear_loop-le_word, written_byte,
  length-write_linear_loop, write_linear_loop-holds,
}
use os_emulation.Page.Linear.{
  LinearHost, out_of_range, read_linear_loop, read_bytes_linear, write_linear_loop,
  write_bytes_linear, offset, read_width, read, write_width, write,
}

module _ (m : LinearHost) (addr n : ℕ) (width : AccessWidth) (e : bytes width ≡ some n) where
  pub read-InRange :
      length m.memory < 2 ^ 63
      → InRange m addr n
      → read m addr width ≡ ok (read_linear_loop m.memory (addr - m.base) n)
  unfolding read offset read_width read_bytes_linear
  read-InRange h r =
      let at_base : ltb addr m.base ≡ false = le→ltb addr m.base r.0 in
      rw (at_base, e, in_range m addr n h r)

  pub write-InRange :
      (value : ℕ)
      → length m.memory < 2 ^ 63
      → InRange m addr n
      → write m addr width value
        ≡ ok (record m { memory = write_linear_loop m.memory (addr - m.base) n value })
  unfolding write offset write_width write_bytes_linear
  write-InRange value h r =
      let at_base : ltb addr m.base ≡ false = le→ltb addr m.base r.0 in
      rw (at_base, e, in_range m addr n h r)

  below_base :
      (value : ℕ)
      → ltb addr m.base ≡ true
      → (read m addr width ≡ err out_of_bounds) × (write m addr width value ≡ err out_of_bounds)
  unfolding read write offset
  below_base value h = rw h (refl, refl)

  past_end :
      (value : ℕ)
      → ltb addr m.base ≡ false
      → out_of_range m.memory (addr - m.base) n ≡ true
      → (read m addr width ≡ err out_of_bounds) × (write m addr width value ≡ err out_of_bounds)
  unfolding read write offset read_width write_width read_bytes_linear write_bytes_linear
  past_end value h k = rw (h, e, k) (refl, refl)

  -- Where the host memory is shorter than 2^63, an access of at most 8 bytes that is not in range
  -- is a fault, for a read and for a write: no address, however close to 2^64, wraps into the
  -- memory.
  pub access_outside :
      (value : ℕ)
      → length m.memory < 2 ^ 63
      → ¬ InRange m addr n
      → (read m addr width ≡ err out_of_bounds) × (write m addr width value ≡ err out_of_bounds)
  access_outside value h r = elim (Bool-cases (ltb addr m.base)) [
    | inl below ↦ below_base value below
    | inr above ↦ elim (Bool-cases (out_of_range m.memory (addr - m.base) n)) [
      | inl past ↦ past_end value above past
      | inr inside ↦ absurd (r (not-InRange m addr n h (ltb→le addr m.base above) inside))
    ]
  ]

  read_written :
      (value : ℕ)
      → IsHost m
      → InRange m addr n
      → read_linear_loop (write_linear_loop m.memory (addr - m.base) n value) (addr - m.base) n
        ≡ value % 2 ^ (8 * n)
  read_written value h r =
      read_linear_loop-le_word _ (addr - m.base) n (bytes_le width n e)
        (write_linear_loop-holds m.memory (addr - m.base) n value h.holds)
      ∙ le_word-bytes _ value n (bytes_le width n e)
          (λ i p. written_byte m.memory (addr - m.base) n value i (omega arith) p)

-- In range, reading at once what was written gives the value, cut to the width, for each width of
-- at most 8 bytes. The host memory is one of bytes and shorter than 2^63.
pub linear-read-write :
    (m : LinearHost) (addr n : ℕ) (width : AccessWidth) (value : ℕ)
    → bytes width ≡ some n
    → IsHost m
    → InRange m addr n
    → (write m addr width value >>= λ m'. read m' addr width) ≡ ok (value % 2 ^ (8 * n))
linear-read-write m addr n width value e h r =
    let mem = write_linear_loop m.memory (addr - m.base) n value in
    let len : length mem ≡ length m.memory =
      length-write_linear_loop m.memory (addr - m.base) n value in
    let m' : LinearHost = record m { memory = mem } in
    rw (write-InRange m addr n width e value h.fits r) (
      read-InRange m' addr n width e (omega arith) (r.0, omega arith)
      ∙ ap ok (read_written m addr n width e value h r))
