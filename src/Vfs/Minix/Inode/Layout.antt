-- ===== src/Vfs/Minix/Inode/Layout.antt =====
-- The bytes of an i-node: reading the structure gives what was written to it.
use multikernel.Common.{
  ℕ, ◌+◌, ◌-◌, ◌*◌, ◌/◌, ◌%◌, ◌^◌, ◌≤◌, ◌<◌, ◌≡◌, refl, Bool, true, false, ◌==◌, ltb, arith, ap,
  ap₂, ◌∙◌,
}
use multikernel.Vfs.Disk.{Data}
use multikernel.Vfs.Minix.{DInode, minix_nr_zones, sizeof_d_inode, inode_bytes, inode_of}
use multikernel.Vfs.Minix.Bytes.{half_at, word_at, half_byte, half-bytes, word-bytes}

-- Each field is a number of its width.
pub record IsDInode (ip : DInode) : Type 0 where
  pub mode : ip.i_mode < 2 ^ 16
  pub uid : ip.i_uid < 2 ^ 16
  pub size : ip.i_size < 2 ^ 32
  pub time : ip.i_time < 2 ^ 32
  pub gid : ip.i_gid < 2 ^ 8
  pub nlinks : ip.i_nlinks < 2 ^ 8
  pub zones : (i : ℕ) → i < minix_nr_zones → ip.i_zones i < 2 ^ 16

-- The two have the same fields; there are nine zones.
pub record SameInode (a b : DInode) : Type 0 where
  pub mode : a.i_mode ≡ b.i_mode
  pub uid : a.i_uid ≡ b.i_uid
  pub size : a.i_size ≡ b.i_size
  pub time : a.i_time ≡ b.i_time
  pub gid : a.i_gid ≡ b.i_gid
  pub nlinks : a.i_nlinks ≡ b.i_nlinks
  pub zones : (i : ℕ) → i < minix_nr_zones → a.i_zones i ≡ b.i_zones i

pub SameInode-trans : (a b c : DInode) → SameInode a b → SameInode b c → SameInode a c
SameInode-trans a b c h h' = record {
  mode = h.mode ∙ h'.mode;
  uid = h.uid ∙ h'.uid;
  size = h.size ∙ h'.size;
  time = h.time ∙ h'.time;
  gid = h.gid ∙ h'.gid;
  nlinks = h.nlinks ∙ h'.nlinks;
  zones = λ i hi. h.zones i hi ∙ h'.zones i hi;
}

-- An i-node depends on the bytes of the structure alone.
pub inode_of-SameInode :
    (big : Bool) (b b' : Data)
    → ((k : ℕ) → k < sizeof_d_inode → b k ≡ b' k)
    → SameInode (inode_of big b) (inode_of big b')
unfolding inode_of
inode_of-SameInode big b b' h = record {
  mode = half_same big 0 (omega arith);
  uid = half_same big 2 (omega arith);
  size = word_same big 4 (omega arith);
  time = word_same big 8 (omega arith);
  gid = h 12 (omega arith);
  nlinks = h 13 (omega arith);
  zones = λ i hi. half_same big (14 + i * 2) (omega arith);
}
  where
    half_same : (big : Bool) (x : ℕ) → x + 1 < sizeof_d_inode → half_at big b x ≡ half_at big b' x
    half_same true x lt = rw (h x (omega arith), h (x + 1) lt) refl
    half_same false x lt = rw (h x (omega arith), h (x + 1) lt) refl

    word_same :
        (big : Bool) (x : ℕ) → x + 2 + 1 < sizeof_d_inode → word_at big b x ≡ word_at big b' x
    word_same true x lt =
        ap₂ (λ y z. y * 65536 + z) (half_same true x (omega arith)) (half_same true (x + 2) lt)
    word_same false x lt =
        ap₂ (λ y z. y + z * 65536) (half_same false x (omega arith)) (half_same false (x + 2) lt)

not_below : (k m : ℕ) → m ≤ k → ltb k m ≡ false
not_below k m le = ground arith

other : (k m : ℕ) → m < k → (k == m) ≡ false
other k m lt = ground arith

-- The bytes of an i-node whose fields are in range give the i-node.
pub inode_of-inode_bytes :
    (big : Bool) (ip : DInode) → IsDInode ip → SameInode (inode_of big (inode_bytes big ip)) ip
unfolding inode_of inode_bytes
inode_of-inode_bytes big ip w = record {
  mode = half-bytes big (inode_bytes big ip) 0 ip.i_mode w.mode refl refl;
  uid = half-bytes big (inode_bytes big ip) 2 ip.i_uid w.uid refl refl;
  size = word-bytes big (inode_bytes big ip) 4 ip.i_size w.size refl refl refl refl;
  time = word-bytes big (inode_bytes big ip) 8 ip.i_time w.time refl refl refl refl;
  gid = small ip.i_gid w.gid;
  nlinks = small ip.i_nlinks w.nlinks;
  zones = λ i hi.
      half-bytes big (inode_bytes big ip) (14 + i * 2) (ip.i_zones i) (w.zones i hi)
        (ap (inode_bytes big ip) (add_zero i) ∙ zone_byte i 0 (omega arith))
        (zone_byte i 1 (omega arith));
}
  where
    small : (v : ℕ) → v < 2 ^ 8 → v % 256 ≡ v
    small v lt = omega arith

    in_zones :
        (k : ℕ) → 14 ≤ k → inode_bytes big ip k ≡ half_byte big (ip.i_zones ((k - 14) / 2)) (k % 2)
    in_zones k le =
        rw
          (
            not_below k 2 (omega arith),
            not_below k 4 (omega arith),
            not_below k 8 (omega arith),
            not_below k 12 (omega arith),
            other k 12 (omega arith),
            other k 13 (omega arith),
          )
          refl

    add_zero : (i : ℕ) → 14 + i * 2 ≡ 14 + i * 2 + 0
    add_zero i = omega arith

    quot : (i r : ℕ) → r < 2 → (14 + i * 2 + r - 14) / 2 ≡ i
    quot i r lt = omega arith

    rest : (i r : ℕ) → r < 2 → (14 + i * 2 + r) % 2 ≡ r
    rest i r lt = omega arith

    zone_byte :
        (i r : ℕ) → r < 2 → inode_bytes big ip (14 + i * 2 + r) ≡ half_byte big (ip.i_zones i) r
    zone_byte i r lt =
        in_zones (14 + i * 2 + r) (omega arith)
        ∙ ap₂ (λ z y. half_byte big (ip.i_zones z) y) (quot i r lt) (rest i r lt)
