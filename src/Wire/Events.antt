-- ===== src/Wire/Events.antt =====
-- internal/infrastructure: the records of the monitor's ring buffer, `DecodeBpfEvent` and `ToFileEvent`.
pub mod Layout
use app_listener.Base.{
  ℕ, zero, suc, ◌+◌, ◌*◌, ◌-◌, Bool, true, false, Option, none, some, List, [], ◌∷◌, if◌then◌else◌,
  ltb, eqb, length, take, drop, Bytes,
}

-- `BpfEvent`; an array of bytes is a list of its length.
pub record BpfEvent : Type 0 where
  pub pid : ℕ
  pub uid : ℕ
  pub gid : ℕ
  pub event_type : ℕ
  pub fd : ℕ
  pub pad : ℕ
  pub comm : Bytes
  pub path : Bytes
  pub dest : Bytes
  pub dev : ℕ
  pub mode : ℕ
  pub ino : ℕ
  pub exe_dev : ℕ
  pub exe_ino : ℕ
  pub prot : ℕ
  pub pad2 : ℕ

-- `BpfEventSize`
abbrev pub bpf_event_size : ℕ
bpf_event_size = 6 * 4 + 16 + 256 + 256 + 4 + 4 + 8 + 8 + 8 + 4 + 4

-- `raw[a:b]`
abbrev pub slice : ℕ → ℕ → Bytes → Bytes
slice a b raw = take (b - a) (drop a raw)

-- `binary.LittleEndian.Uint32` and `Uint64`, on a slice of that length.
abbrev pub le_uint : Bytes → ℕ
le_uint [] = 0
le_uint (b ∷ bs) = b + 256 * le_uint bs

-- `DecodeBpfEvent`; none is false.
unfoldable pub decode_bpf_event : Bytes → Option BpfEvent
decode_bpf_event raw =
    if ltb (length raw) bpf_event_size
    then none
    else some (record {
      pid = le_uint (slice 0 4 raw);
      uid = le_uint (slice 4 8 raw);
      gid = le_uint (slice 8 12 raw);
      event_type = le_uint (slice 12 16 raw);
      fd = le_uint (slice 16 20 raw);
      pad = le_uint (slice 20 24 raw);
      comm = slice 24 40 raw;
      path = slice 40 296 raw;
      dest = slice 296 552 raw;
      dev = le_uint (slice 552 556 raw);
      mode = le_uint (slice 556 560 raw);
      ino = le_uint (slice 560 568 raw);
      exe_dev = le_uint (slice 568 576 raw);
      exe_ino = le_uint (slice 576 584 raw);
      prot = le_uint (slice 584 588 raw);
      pad2 = le_uint (slice 588 592 raw);
    })

-- `Cstr`
unfoldable pub cstr : Bytes → Bytes
cstr [] = []
cstr (b ∷ bs) = if eqb b 0 then [] else b ∷ cstr bs

-- `FileEvent`; what the monitor adds later is empty at first.
pub record FileEvent : Type 0 where
  pub pid : ℕ
  pub uid : ℕ
  pub gid : ℕ
  pub event_type : ℕ
  pub fd : ℕ
  pub comm : Bytes
  pub path : Bytes
  pub dest : Bytes
  pub timestamp : ℕ
  pub exe_dev : ℕ
  pub exe_ino : ℕ
  pub exe : Bytes
  pub exec_name : Bytes
  pub prot : ℕ

-- `ToFileEvent`
abbrev pub to_file_event : BpfEvent → FileEvent
to_file_event e = record {
  pid = e.pid;
  uid = e.uid;
  gid = e.gid;
  event_type = e.event_type;
  fd = e.fd;
  comm = cstr e.comm;
  path = cstr e.path;
  dest = cstr e.dest;
  timestamp = 0;
  exe_dev = e.exe_dev;
  exe_ino = e.exe_ino;
  exe = [];
  exec_name = [];
  prot = e.prot;
}
