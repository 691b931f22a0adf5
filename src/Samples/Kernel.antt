-- ===== src/Samples/Kernel.antt =====
-- Concrete runs of the kernel's records and mount tables.
use app_listener.Base.{
  ℕ, zero, suc, ◌≡◌, refl, some, List, [], ◌∷◌, ◌++◌, nat_eq, list_eq, Bytes, codes, arith,
}
use app_listener.Wire.Events.{BpfEvent, decode_bpf_event}
use app_listener.Wire.Events.Layout.{encode_event, Sized, decode-encode_event}
use app_listener.Wire.Mounts.{MountInfo, path_under, mount_path, unescape_mountinfo}
use app_listener.Wire.Mounts.Escapes.{escape_path, unescape-escape_path}
use app_listener.Wire.Mounts.Through.{path_under-mount_path}

abbrev zeros : ℕ → Bytes
zeros zero = []
zeros (suc n) = 0 ∷ zeros n

abbrev sample_event : BpfEvent
sample_event = record {
  pid = 4242;
  uid = 1000;
  gid = 1000;
  event_type = 1;
  fd = 3;
  pad = 0;
  comm = codes "cat" ++ zeros 13;
  path = codes "/srv/db/a" ++ zeros 247;
  dest = zeros 256;
  dev = 8388610;
  mode = 33188;
  ino = 77;
  exe_dev = 8388609;
  exe_ino = 1234567;
  prot = 0;
  pad2 = 0;
}

sample_event-Sized : Sized sample_event
sample_event-Sized = record {
  words = (omega arith, omega arith, omega arith, omega arith, omega arith, omega arith);
  arrays = (refl, refl, refl);
  numbers =
      (omega arith, omega arith, omega arith, omega arith, omega arith, omega arith, omega arith);
}

decode-encode_event_example : decode_bpf_event (encode_event sample_event) ≡ some sample_event
decode-encode_event_example = decode-encode_event sample_event sample_event-Sized

unescape-escape_path_example :
    unescape_mountinfo (escape_path (codes "/mnt/my disk")) ≡ codes "/mnt/my disk"
unescape-escape_path_example = unescape-escape_path (codes "/mnt/my disk")

abbrev home_mount : MountInfo
home_mount = record { id = 31; dev = 8388610; root = codes "/@home"; mountpoint = codes "/home" }

home_mount_path : mount_path home_mount (codes "/@home/ann") ≡ some (codes "/home/ann")
unfolding mount_path path_under
home_mount_path = refl

home_under : path_under (codes "/@home/ann") (codes "/@home") ≡ some (codes "/ann")
unfolding path_under
home_under = refl

path_under-mount_path_example : path_under (codes "/home/ann") (codes "/home") ≡ some (codes "/ann")
path_under-mount_path_example =
    path_under-mount_path home_mount (codes "/@home/ann") (codes "/home/ann") (codes "/ann")
      home_mount_path home_under

abbrev two_mounts : Bytes
two_mounts =
    codes "30 1 8:2 / / rw shared:1 - ext4 /dev/sda2 rw"
    ++ 10 ∷ codes "31 1 0:50 / /mnt/a rw,nosuid shared:2 - fuse.sshfs a rw"

abbrev root_disk : List ℕ
root_disk = 8388610 ∷ []
