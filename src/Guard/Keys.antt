-- ===== src/Guard/Keys.antt =====
-- internal/guard: the keys of the kernel's maps, the actions of a row and the modes of a guard.
use app_listener.Base.{
  ℕ, ◌-◌, ◌*◌, ◌/◌, ◌%◌, ◌^◌, ◌≡◌, ◌↔◌, Bool, true, false, not, ◌&&◌, EqTest, ◌==◌, nat_eq, arith,
  bit_or, List,
}

-- `GuardInodeKey`
pub record InodeKey : Type 0 where
  pub dev : ℕ
  pub ino : ℕ

pub inode_beq_iff : (a b : InodeKey) → (((a.dev == b.dev) && (a.ino == b.ino)) ≡ true) ↔ (a ≡ b)
inode_beq_iff a b = ground arith

instance abbrev pub inode_eq : EqTest InodeKey
inode_eq = record { beq = λ a b. (a.dev == b.dev) && (a.ino == b.ino); beq_iff = inode_beq_iff }

-- `GuardResInodeKey`
pub record ResInodeKey : Type 0 where
  pub res : ℕ
  pub exe : InodeKey

pub res_inode_beq_iff :
    (a b : ResInodeKey) → (((a.res == b.res) && (a.exe == b.exe)) ≡ true) ↔ (a ≡ b)
res_inode_beq_iff a b = ground arith

instance abbrev pub res_inode_eq : EqTest ResInodeKey
res_inode_eq = record {
  beq = λ a b. (a.res == b.res) && (a.exe == b.exe);
  beq_iff = res_inode_beq_iff;
}

-- The applet tag: bits 32 to 47 of the device number.
abbrev pub tag_of : InodeKey → ℕ
tag_of k = (k.dev / 2 ^ 32) % 2 ^ 16

-- `Real`: clears those bits.
unfoldable pub real : InodeKey → InodeKey
real k = record k { dev = k.dev - tag_of k * 2 ^ 32 }

unfoldable pub tagged : InodeKey → Bool
tagged k = not (tag_of k == 0)

abbrev pub mc_tag_none : ℕ
mc_tag_none = 0xffff

-- `withTag`: the shift of a 32-bit tag fits 64 bits.
unfoldable pub with_tag : InodeKey → ℕ → InodeKey
unfolding real
with_tag k tag = record k { dev = bit_or (real k).dev (tag * 2 ^ 32) }

abbrev pub guard_block : ℕ
guard_block = 1

abbrev pub guard_allow : ℕ
guard_allow = 2

abbrev pub guard_allow_root : ℕ
guard_allow_root = 3

pub data Mode : Type 0 where
  whitelist blacklist read_only : Mode

-- `GuardMaxRes` and `resGlobal`
abbrev pub guard_max_res : ℕ
guard_max_res = 512

abbrev pub res_global : ℕ
res_global = 0

-- A whitelist view: an executable's key and its action.
abbrev pub AllowSet : Type 0
AllowSet = List (InodeKey × ℕ)

pub real-real : (k : InodeKey) → real (real k) ≡ real k
unfolding real
real-real k = ground arith

pub tagged-real : (k : InodeKey) → tagged (real k) ≡ false
unfolding real tagged
tagged-real k = ground arith
