-- ===== src/ArbDisk/Image.antt =====
-- The arbiter's file of one uuid, as the bytes that are mapped: the head, the array of records and the
-- strings, in src/duallive/arbitrary_disk.c.
pub mod Head
pub mod Holds
pub mod Strings
pub mod Find
pub mod Format
pub mod Remove
pub mod Progress
pub mod Record
pub mod Full
pub mod Lookup
pub mod Begin
pub mod Insert
pub mod Mapped
pub mod Agree
use duallive.Base.{
  ℕ, zero, suc, ◌+◌, ◌-◌, ◌*◌, ◌/◌, ◌%◌, ◌^◌, List, [], ◌∷◌, ◌++◌, Bool, true, false, not, ltb,
  ◌==◌, ◌||◌, if◌then◌else◌, Option, none, some, length, take, drop, replicate, Outcome, ok, fault,
  out_of_bounds, verify_failed, verify, in_bounds, ◌>>=◌, ◌>>◌,
}
use duallive.Base.Memory.{Bytes, le, un_le, read_at, write_at, read_word, strlen, same_bytes}
use duallive.Base.Patches.{window}
use duallive.Kmem.{page_size, u32_mod, u16_mod}
use duallive.Duallive.{Uuid, Ver, Desc}
use duallive.ArbDisk.Image.Head.{
  sizeof_disk_head, sizeof_disk_dli, disk_magic, dfl_dli_num, disk_min_size, align_to_page,
  head_magic, head_dl_num, head_dl_num_max, head_str_pos, head_last_str_pos, set_word, disk_dli_of,
  dli_off, disk_dli_at, arb_disk_stroff, arb_disk_used_space, arb_disk_idle_space,
}
use duallive.ArbDisk.{DiskDli, desc_standard}

-- strcmp(a, b) == 0
pub same_string : Bytes → Bytes → Outcome Bool
same_string [] b = fault out_of_bounds
same_string (x ∷ a) [] = fault out_of_bounds
same_string (x ∷ a) (y ∷ b) =
    let rest = same_string a b in if x == y then (if x == 0 then ok true else rest) else ok false

-- &str[off] for a pointer that must not leave the mapping.
abbrev pub at : Bytes → ℕ → Outcome Bytes
at m off = in_bounds (not (ltb (length m) off)) >> ok (drop off m)

-- dli_equ_desc: `str` is the strings.
pub dli_equ_desc : DiskDli → Desc → Bytes → Outcome Bool
unfolding same_string
dli_equ_desc dli desc str =
    if not (dli.hostid0 == desc.local_hostid)
    then ok false
    else if not (dli.hostid1 == desc.remote_hostid)
    then ok false
    else do
      s0 ← at str dli.dataset0
      same0 ← same_string s0 desc.local_dataset
      if not same0
          then ok false
          else do s1 ← at str dli.dataset1; same_string s1 desc.remote_dataset

-- The loop of arb_disk_find_dli: the rounds left, the index, and the index of the pair.
find_dli_loop : Bytes → Bytes → Desc → ℕ → ℕ → Outcome (Option ℕ)
unfolding dli_equ_desc disk_dli_at
find_dli_loop img str desc zero i = ok none
find_dli_loop img str desc (suc left) i = do
  dli ← disk_dli_at img i
  same ← dli_equ_desc dli desc str
  let rest = find_dli_loop img str desc left (i + 1)
  if same then ok (some i) else rest

-- The index of the pair; `none` for NULL. `tmp` is what the local variable holds before.
pub arb_disk_find_dli : Bytes → Desc → Desc → Outcome (Option ℕ)
unfolding find_dli_loop arb_disk_stroff
arb_disk_find_dli img desc tmp = do
  off ← arb_disk_stroff img
  str ← at img off
  num ← head_dl_num img
  find_dli_loop img str (desc_standard desc tmp) num 0

-- The loop of arb_disk_remove_dli: the rounds left, and the index.
move_down : Bytes → ℕ → ℕ → Outcome Bytes
move_down img zero i = ok img
move_down img (suc left) i = do
  b ← read_at (dli_off (i + 1)) sizeof_disk_dli img
  img ← write_at (dli_off i) b img
  move_down img left (i + 1)

pub arb_disk_remove_dli : Bytes → Desc → Desc → Outcome Bytes
unfolding move_down
arb_disk_remove_dli img desc tmp = do
  found ← arb_disk_find_dli img desc tmp
  elim found [
    | none ↦ ok img
    | some ndx ↦ do
      num ← head_dl_num img
      verify (ltb 0 num)
      img ← set_word 4 2 (num - 1) img
      move_down img (num - 1 - ndx) ndx
  ]

-- arb_disk_format from the size that file_map_set_size gave the mapping; `fm.size` bytes are cleared.
pub arb_disk_format : ℕ → Outcome Bytes
unfolding arb_disk_stroff
arb_disk_format size = do
  img ← ok (replicate size 0)
  img ← set_word 0 4 disk_magic img
  img ← set_word 6 2 dfl_dli_num img
  off ← arb_disk_stroff img
  img ← write_at off (0 ∷ []) img
  img ← set_word 32 4 1 img
  set_word 36 4 0 img

pub arb_disk_strbuf_shift : Bytes → ℕ → Outcome Bytes
arb_disk_strbuf_shift img off = do
  pos ← head_str_pos img
  stroff ← arb_disk_stroff img
  let len = (pos + u32_mod - stroff) % u32_mod
  tmpbuf ← read_at stroff len img
  write_at (stroff + off % u32_mod) tmpbuf img

-- file_map_expand, by the bytes of the mapping and how many are to be added: what is mapped then, or
-- `none` if it fails.
abbrev pub Grow : Type 0
Grow = Bytes → ℕ → Option Bytes

module _ (grow : Grow) where
  pub arb_disk_expand : Bytes → ℕ → Outcome Bytes
  arb_disk_expand img expand_size = elim (grow img (align_to_page expand_size)) [
    | none ↦ fault verify_failed
    | some img ↦ ok img
  ]

  -- The offset, whether the file was mapped again, and the file.
  pub arb_disk_add_str : Bytes → Bytes → Outcome (ℕ × Bool × Bytes)
  unfolding arb_disk_expand
  arb_disk_add_str img str = do
    n ← strlen str
    let len = (n + 1) % u32_mod
    used ← arb_disk_used_space img
    let full = ltb (length img) ((used + len) % u32_mod)
    img ← if full then arb_disk_expand img len else ok img
    stroff ← arb_disk_stroff img
    pos ← head_str_pos img
    last ← head_last_str_pos img
    let last_len = (pos + u32_mod - last) % u32_mod
    same ← if not (len == last_len) then ok false else (do
      old ← read_at (stroff + last) len img
      new ← read_at 0 len str
      ok (same_bytes new old))
    if same then ok (last, full, img) else (do
      new ← read_at 0 len str
      img ← write_at (stroff + pos) new img
      img ← set_word 36 4 pos img
      img ← set_word 32 4 ((pos + len) % u32_mod) img
      ok (pos, full, img))

  -- A pointer from before goes nowhere when the file was mapped again.
  abbrev pub not_stale : Bool → Outcome (Unit {0})
  not_stale moved = in_bounds (not moved)

  pub arb_disk_set_comm_info : Bytes → Desc → Outcome Bytes
  unfolding arb_disk_add_str
  arb_disk_set_comm_info img desc = do
    (off, moved, img) ← arb_disk_add_str img desc.arbitrary_ip
    not_stale moved
    img ← set_word 8 4 off img
    img ← set_word 12 4 desc.arbitrary_port img
    img ← set_word 16 8 desc.uuid.uuid0 img
    set_word 24 8 desc.uuid.uuid1 img

  pub arb_disk_expand_dli_space : Bytes → Outcome Bytes
  arb_disk_expand_dli_space img = do
    max ← head_dl_num_max img
    let dli_size = sizeof_disk_dli * max
    idle ← arb_disk_idle_space img
    img ← if ltb idle dli_size then arb_disk_expand img dli_size else ok img
    img ← arb_disk_strbuf_shift img dli_size
    max ← head_dl_num_max img
    set_word 6 2 (max * 2 % u16_mod) img

  -- A new record at the end: its index and the file.
  pub append_dli : Bytes → Desc → Outcome (ℕ × Bytes)
  unfolding arb_disk_set_comm_info arb_disk_add_str
  append_dli img standard = do
    num ← head_dl_num img
    img ← set_word 4 2 ((num + 1) % u16_mod) img
    let dli = dli_off num
    img ← set_word dli 4 standard.local_hostid img
    img ← set_word (dli + 4) 4 standard.remote_hostid img
    (off0, moved0, img) ← arb_disk_add_str img standard.local_dataset
    not_stale moved0
    img ← set_word (dli + 8) 4 off0 img
    (off1, moved1, img) ← arb_disk_add_str img standard.remote_dataset
    not_stale moved1
    img ← set_word (dli + 12) 4 off1 img
    num' ← head_dl_num img
    img ← if num' == 1 then arb_disk_set_comm_info img standard else ok img
    ok (num, img)

  -- The index of the record of the pair, and the file. `tmp` and `tmp2` are what the local variables
  -- of this function and of arb_disk_find_dli hold before.
  pub arb_disk_insert_dli : Bytes → Desc → Desc → Desc → Outcome (ℕ × Bytes)
  arb_disk_insert_dli img desc tmp tmp2 = do
    let standard = desc_standard desc tmp
    found ← arb_disk_find_dli img standard tmp2
    elim found [
      | some i ↦ ok (i, img)
      | none ↦ do
        num ← head_dl_num img
        max ← head_dl_num_max img
        img ← if num == max then arb_disk_expand_dli_space img else ok img
        num ← head_dl_num img
        max ← head_dl_num_max img
        verify (ltb num max)
        append_dli img standard
    ]
