-- ===== src/Wire/Events/Layout.antt =====
-- internal/infrastructure: the offsets of `DecodeBpfEvent` are those of the C structure.
use app_listener.Base.{
  ℕ, zero, suc, ◌+◌, ◌/◌, ◌%◌, ◌^◌, ◌<◌, ◌≡◌, refl, ap, ◌∙◌, some, [], ◌∷◌, ◌++◌, length,
  length-append, take, drop, take-append, drop-append, nat_eq, Bytes, arith,
}
use native.Mathlib.Nat.{pow-suc}
use app_listener.Wire.Events.{BpfEvent, slice, le_uint, decode_bpf_event}

-- A number in `n` bytes, the lowest first.
abbrev pub le_bytes : ℕ → ℕ → Bytes
le_bytes zero k = []
le_bytes (suc n) k = k % 256 ∷ le_bytes n (k / 256)

le_uint-le_bytes : (n k : ℕ) → k < 256 ^ n → le_uint (le_bytes n k) ≡ k
le_uint-le_bytes zero k h = omega arith
le_uint-le_bytes (suc n) k h =
    omega (arith, le_uint-le_bytes n (k / 256) (omega (arith, pow-suc 256 n)), pow-suc 256 n)

-- The members of `struct event` of monitor.bpf.c, in its order and widths.
abbrev pub tail_bytes : BpfEvent → Bytes
tail_bytes e =
    le_bytes 4 e.dev
    ++ (le_bytes 4 e.mode
        ++ (le_bytes 8 e.ino
            ++ (le_bytes 8 e.exe_dev
                ++ (le_bytes 8 e.exe_ino ++ (le_bytes 4 e.prot ++ le_bytes 4 e.pad2)))))

abbrev pub encode_event : BpfEvent → Bytes
encode_event e =
    le_bytes 4 e.pid
    ++ (le_bytes 4 e.uid
        ++ (le_bytes 4 e.gid
            ++ (le_bytes 4 e.event_type
                ++ (le_bytes 4 e.fd
                    ++ (le_bytes 4 e.pad ++ (e.comm ++ (e.path ++ (e.dest ++ tail_bytes e))))))))

-- Every number and array has its C type's size.
pub record Sized (e : BpfEvent) : Type 0 where
  pub words :
      (e.pid < 256 ^ 4)
      × (e.uid < 256 ^ 4)
      × (e.gid < 256 ^ 4)
      × (e.event_type < 256 ^ 4)
      × (e.fd < 256 ^ 4)
      × (e.pad < 256 ^ 4)
  pub arrays : (length e.comm ≡ 16) × (length e.path ≡ 256) × (length e.dest ≡ 256)
  pub numbers :
      (e.dev < 256 ^ 4)
      × (e.mode < 256 ^ 4)
      × (e.ino < 256 ^ 8)
      × (e.exe_dev < 256 ^ 8)
      × (e.exe_ino < 256 ^ 8)
      × (e.prot < 256 ^ 4)
      × (e.pad2 < 256 ^ 4)

module _ (e : BpfEvent) (s : Sized e) where
  at_comm : slice 24 40 (encode_event e) ≡ e.comm
  at_comm = take-append 16 e.comm _ s.arrays.0

  after_comm :
      (m : ℕ)
      → drop (16 + m) (e.comm ++ (e.path ++ (e.dest ++ tail_bytes e)))
        ≡ drop m (e.path ++ (e.dest ++ tail_bytes e))
  after_comm m = drop-append 16 m e.comm _ s.arrays.0

  at_path : slice 40 296 (encode_event e) ≡ e.path
  at_path = ap (take 256) (after_comm 0) ∙ take-append 256 e.path _ s.arrays.1

  after_path :
      (m : ℕ)
      → drop (256 + m) (e.path ++ (e.dest ++ tail_bytes e)) ≡ drop m (e.dest ++ tail_bytes e)
  after_path m = drop-append 256 m e.path _ s.arrays.1

  at_dest : slice 296 552 (encode_event e) ≡ e.dest
  at_dest = ap (take 256) (after_comm 256 ∙ after_path 0) ∙ take-append 256 e.dest _ s.arrays.2

  after_dest : (m : ℕ) → drop (256 + m) (e.dest ++ tail_bytes e) ≡ drop m (tail_bytes e)
  after_dest m = drop-append 256 m e.dest _ s.arrays.2

  -- What follows the three arrays.
  after_arrays :
      (m : ℕ)
      → drop (528 + m) (e.comm ++ (e.path ++ (e.dest ++ tail_bytes e))) ≡ drop m (tail_bytes e)
  after_arrays m =
      ap (λ k. drop k (e.comm ++ (e.path ++ (e.dest ++ tail_bytes e)))) (omega arith)
      ∙ after_comm (512 + m)
      ∙ ap (λ k. drop k (e.path ++ (e.dest ++ tail_bytes e))) (omega arith)
      ∙ after_path (256 + m)
      ∙ after_dest m

  -- A number behind the arrays, in `n` bytes.
  number :
      (m n k : ℕ)
      → k < 256 ^ n
      → take n (drop m (tail_bytes e)) ≡ le_bytes n k
      → le_uint (take n (drop (528 + m) (e.comm ++ (e.path ++ (e.dest ++ tail_bytes e))))) ≡ k
  number m n k h at =
      ap (λ l. le_uint (take n l)) (after_arrays m) ∙ ap le_uint at ∙ le_uint-le_bytes n k h

  length-encode_event : length (encode_event e) ≡ 592
  length-encode_event = omega (
    arith,
    length-append e.comm (e.path ++ (e.dest ++ tail_bytes e)),
    length-append e.path (e.dest ++ tail_bytes e),
    length-append e.dest (tail_bytes e),
    s.arrays.0,
    s.arrays.1,
    s.arrays.2,
  )

  -- A record that the kernel side lays out as its C structure, every number and array of its C type's size, is
  -- decoded to exactly its members.
  pub decode-encode_event : decode_bpf_event (encode_event e) ≡ some e
  unfolding decode_bpf_event
  decode-encode_event = rw (length-encode_event) (
      ap some (λ i. record {
        pid = le_uint-le_bytes 4 e.pid s.words.0 i;
        uid = le_uint-le_bytes 4 e.uid s.words.1 i;
        gid = le_uint-le_bytes 4 e.gid s.words.2 i;
        event_type = le_uint-le_bytes 4 e.event_type s.words.3 i;
        fd = le_uint-le_bytes 4 e.fd s.words.4 i;
        pad = le_uint-le_bytes 4 e.pad s.words.5 i;
        comm = at_comm i;
        path = at_path i;
        dest = at_dest i;
        dev = number 0 4 e.dev s.numbers.0 refl i;
        mode = number 4 4 e.mode s.numbers.1 refl i;
        ino = number 8 8 e.ino s.numbers.2 refl i;
        exe_dev = number 16 8 e.exe_dev s.numbers.3 refl i;
        exe_ino = number 24 8 e.exe_ino s.numbers.4 refl i;
        prot = number 32 4 e.prot s.numbers.5 refl i;
        pad2 = number 36 4 e.pad2 s.numbers.6 refl i;
      }))
