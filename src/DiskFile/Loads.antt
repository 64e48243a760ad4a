-- ===== src/DiskFile/Loads.antt =====
-- What arb_disk_load of src/duallive/arbitrary_disk.c holds afterwards.
use duallive.Base.{
  ℕ, ◌≤◌, ◌≡◌, ◌⊎◌, refl, sym, ap, subst, out_of_bounds, ◌∙◌, arith, inl, inr, List, Bool, true,
  false, not, ◌&&◌, ltb, ◌==◌, if◌then◌else◌, Bool-cases, take, ◌++◌, length, Option, none, some,
  ok, fault, Fault, Ends, Ends-bind, Ends-of, Ends-blame, ltb→lt, ltb→le, ◌<◌, ◌>>=◌, ==→eq,
}
use duallive.Base.Memory.{Bytes, un_le}
use duallive.Base.Patches.{window, read_word-window}
use duallive.Base.Text.{codes}
use duallive.Kmem.{Allocator}
use duallive.Duallive.{Uuid}
use duallive.FileSystem.{System}
use duallive.FileMap.{
  FileMap, fm_normal, calc_map_size, file_map_init, file_map_open_, file_map_set_size,
  file_map_fini,
}
use duallive.FileMap.Resources.{Tracks, Handle, Kept, Balanced, Balanced-Kept, Unmapped-Balanced}
use duallive.FileMap.Operations.{
  file_map_open_-Balanced, file_map_set_size-Balanced, file_map_fini-returns,
}
use duallive.FileMap.Opened.{
  IsMapped, IsMapped-page, file_map_open_-IsMapped, MaybeMapped, file_map_set_size-MaybeMapped,
}
use duallive.ArbDisk.Image.{arb_disk_format}
use duallive.ArbDisk.Image.Format.{arb_disk_format-returns}
use duallive.ArbDisk.Image.Head.{head_magic, disk_magic, disk_min_size, align_to_page}
use duallive.DiskFile.{
  Shared, shell, mapped, format_mapped, format_disk, load_mapped, load_file, arb_disk_load,
}

-- Memory has the length that is asked for, and neither it nor a command changes what the program holds.
pub record Keeps {W : Type 0} (os : System W) (t : Tracks os) (mem : Shared W) : Type 0 where
  pub contents_length : (w : W) (start n : ℕ) → length (mem.contents w start n) ≡ n
  pub contents_store :
      (w : W) (start : ℕ) (bs : Bytes) → mem.contents (mem.store w start bs) start (length bs) ≡ bs
  pub store_keeps : (w : W) (start : ℕ) (bs : Bytes) → Kept os t w (mem.store w start bs)
  pub system_keeps : (w : W) (cmd : Bytes) → Kept os t w (mem.system w cmd).1

-- A mapping that is large enough is formatted.
ok_no_fault : {A : Type 0} {a : A} {e : Fault} → ok a ≡ fault e → ⊥
ok_no_fault eq = ground arith

format_fails : (size : ℕ) (e : Fault) → arb_disk_format size ≡ fault e → size < 321
format_fails size e fails = elim (Bool-cases (ltb size 321)) [
  | inl small ↦ ltb→lt size 321 small
  | inr large ↦
      let (img, formats, _) = arb_disk_format-returns size (ltb→le size 321 large) in
      absurd (ok_no_fault (sym formats ∙ fails))
]

module _ {W : Type 0} (os : System W) (t : Tracks os) (mem : Shared W) (keeps : Keeps os t mem)
    ⦃heap : Allocator⦄ (hs : List Handle) (ms : List (ℕ × ℕ)) where
  -- A file that begins with the number of a disk, and is not too small.
  abbrev pub Usable : FileMap → ℕ → W → Type 0
  Usable fm start w =
      (head_magic (mem.contents w start (calc_map_size fm.size)) ≡ ok disk_magic)
      × (align_to_page disk_min_size ≤ fm.size)

  abbrev pub Formatted : FileMap → ℕ → W → Type 0
  Formatted fm start w =
      (img : Bytes) × (arb_disk_format fm.size ≡ ok img) × (mem.contents w start (length img) ≡ img)

  -- A disk that is loaded: its file is mapped, and nothing else is held.
  pub record Loaded (create : Bool) (fm : FileMap) (w : W) : Type 0 where
    pub balanced : Balanced os t hs ms fm w
    pub is_mapped : IsMapped fm
    pub good : Usable fm is_mapped.start w ⊎ ((create ≡ true) × Formatted fm is_mapped.start w)

  -- What arb_disk_load returns: NULL, with nothing held, or a disk.
  abbrev pub Loads : Bool → Option FileMap × W → Type 0
  Loads create r = elim (r.0) [
    | none ↦ (t.handles r.1 ≡ hs) × (t.maps r.1 ≡ ms)
    | some fm ↦ Loaded create fm r.1
  ]

  -- What file_map_set_size made of the file that is formatted: it is not mapped, or arb_disk_format
  -- writes behind the end of it.
  abbrev pub Short : FileMap → Fault → Type 0
  Short fm e =
      ((fm.buf ≡ none) × (e ≡ out_of_bounds))
      ⊎ ((fm.size < 321) × (arb_disk_format fm.size ≡ fault e))

  -- The file that arb_disk_load opened was to be created, and did not get its size.
  pub record Unsized (w : W) (fname : Bytes) (create : Bool) (e : Fault) : Type 0 where
    pub creates : create ≡ true
    pub opened : FileMap × W
    pub opens :
        file_map_open_ os w (file_map_init fname) false fm_normal ≡ ok (true, opened.0, opened.1)
    pub r : Bool × FileMap × W
    pub resizes : file_map_set_size os opened.1 opened.0 (align_to_page disk_min_size) ≡ ok r
    pub short : Short r.1 e

  -- What fails on the file that was opened: `o` is the file_map_t and the state.
  abbrev ShortAfter : FileMap × W → Fault → Type 0
  ShortAfter o e =
      (r : Bool × FileMap × W) × (file_map_set_size os o.1 o.0 (align_to_page disk_min_size) ≡ ok r)
      × Short r.1 e

  format_mapped-Loaded :
      (w : W) (fm : FileMap)
      → MaybeMapped os t fm
      → Balanced os t hs ms fm w
      → Ends (Short fm) (λ w'. Loaded true fm w') (format_mapped os mem w fm)
  unfolding format_mapped
  format_mapped-Loaded w fm (inl null) b =
      let eq : format_mapped os mem w fm ≡ fault out_of_bounds = rw (format_mapped, null) refl in
      inr (_, eq, inl (null, refl))
  format_mapped-Loaded w fm (inr m) b =
      let eq : format_mapped os mem w fm
          ≡ (arb_disk_format fm.size >>= λ img. ok (mem.store w m.start img)) =
        rw (format_mapped, m.is_start) refl in
      subst (Ends (Short fm) (Loaded true fm)) (sym eq) (
        Ends-bind (Short fm) _ (Loaded true fm) (arb_disk_format fm.size)
          (λ img. ok (mem.store w m.start img))
          (Ends-of (arb_disk_format fm.size) (λ e fails. inr (format_fails fm.size e fails, fails)))
          (λ img formats. inl (
            _,
            refl,
            record {
              balanced = Balanced-Kept os t b (keeps.store_keeps w m.start img);
              is_mapped = m;
              good = inr (refl, (img, formats, keeps.contents_store w m.start img));
            },
          )))

  -- The file is formatted.
  format_disk-Loaded :
      (E : Fault → Type 0) (w : W) (fm : FileMap)
      → ((e : Fault) → ShortAfter (fm, w) e → E e)
      → Balanced os t hs ms fm w
      → IsMapped fm
      → Ends E (λ r. Loaded true r.0 r.1) (format_disk os mem w fm)
  unfolding format_disk
  format_disk-Loaded E w fm blame b m =
      let (r, resizes, b') =
        file_map_set_size-Balanced os t hs ms w fm (align_to_page disk_min_size) b in
      rw resizes (
        Ends-bind E _ _ (format_mapped os mem r.2 r.1) _
          (Ends-blame (format_mapped os mem r.2 r.1) (λ e short. blame e (r, resizes, short))
            (format_mapped-Loaded r.2 r.1
              (file_map_set_size-MaybeMapped os t w fm (align_to_page disk_min_size) (inr m)
                resizes)
              b'))
          λ w' l. inl (_, refl, l))

  pub shell-Kept : (w : W) (cmd : Bytes) → Kept os t w (shell os mem w cmd).1
  unfolding shell
  shell-Kept w cmd = keeps.system_keeps w (take 1023 cmd)

  -- What becomes of a file that is no disk.
  unusable-Loads :
      (create : Bool) (w : W) (fname : Bytes) (fm : FileMap)
      → Balanced os t hs ms fm w
      → IsMapped fm
      → Ends
          (λ e. (create ≡ true) × ShortAfter (fm, w) e)
          (Loads create)
          (if create
            then (do (fm, w) ← format_disk os mem w fm; ok (some fm, w))
            else ok (none, (shell os mem (file_map_fini os w fm) (codes "rm -f " ++ fname)).1))
  unusable-Loads true w fname fm b m =
      Ends-bind (λ e. (true ≡ true) × ShortAfter (fm, w) e) _ _ (format_disk os mem w fm) _
        (format_disk-Loaded (λ e. (true ≡ true) × ShortAfter (fm, w) e) w fm
          (λ e short. (refl, short)) b m)
        λ r l. inl (_, refl, l)
  unusable-Loads false w fname fm b mapped =
      let (h, m) = file_map_fini-returns os t hs ms w fm b in
      let (h', m') = shell-Kept (file_map_fini os w fm) (codes "rm -f " ++ fname) in
      inl (_, refl, (h' ∙ h, m' ∙ m))

  load_mapped-Loads :
      (create : Bool) (w : W) (fname : Bytes) (fm : FileMap)
      → Balanced os t hs ms fm w
      → IsMapped fm
      → Ends
          (λ e. (create ≡ true) × ShortAfter (fm, w) e)
          (Loads create)
          (load_mapped os mem w fname fm create)
  unfolding load_mapped mapped
  load_mapped-Loads create w fname fm b m =
      let img = mem.contents w m.start (calc_map_size fm.size) in
      let page = IsMapped-page fm m in
      let there : mapped os mem w fm ≡ ok img = rw (mapped, m.is_start) refl in
      let magic : head_magic img ≡ ok (un_le 4 (window 0 4 img)) =
        read_word-window 0 4 img
          (omega (arith, page, keeps.contents_length w m.start (calc_map_size fm.size))) in
      elim (Bool-cases (
        (un_le 4 (window 0 4 img) == disk_magic)
        && not (ltb fm.size (align_to_page disk_min_size)))) [
          | inl usable ↦
              rw (there, magic, usable)
                (inl (
                  _,
                  refl,
                  record {
                    balanced = b;
                    is_mapped = m;
                    good = inl (magic ∙ ap ok (==→eq _ disk_magic (ground arith)), ground arith);
                  },
                ))
          | inr bad ↦ rw (there, magic, bad) (unusable-Loads create w fname fm b m)
        ]

  load_file-Loads :
      (create : Bool) (w : W) (fname : Bytes)
      → t.handles w ≡ hs
      → t.maps w ≡ ms
      → Ends (Unsized w fname create) (Loads create) (load_file os mem w fname create)
  unfolding load_file
  load_file-Loads create w fname h m = elim (Bool-cases (not create && not (os.access w fname))) [
    | inl absent ↦ rw absent (inl (_, refl, (h, m)))
    | inr present ↦
        let (r, opens, b) =
          file_map_open_-Balanced os t hs ms w (file_map_init fname) false fm_normal
            (Unmapped-Balanced os t hs ms (file_map_init fname) w (refl, h, m)) in
        elim (Bool-cases r.0) [
          | inl opened ↦
              rw (present, opens, opened)
                (Ends-blame (load_mapped os mem r.2 fname r.1 create)
                  (λ e (creates, (q, resizes, short)). record {
                    creates = creates;
                    opened = (r.1, r.2);
                    opens = opens ∙ ap (λ c. ok (c, r.1, r.2)) opened;
                    r = q;
                    resizes = resizes;
                    short = short;
                  })
                  (load_mapped-Loads create r.2 fname r.1 b
                    (file_map_open_-IsMapped os t w fname opens opened)))
          | inr failed ↦
              rw (present, opens, failed)
                (inl (_, refl, file_map_fini-returns os t hs ms r.2 r.1 b))
        ]
  ]

  -- arb_disk_load, whatever the calls of the operating system answer, ends in a fault only where a file is
  -- to be created and file_map_set_size left the file that was opened unmapped, which is then an access
  -- out of bounds, or smaller than the 321 bytes that arb_disk_format writes to. Else it returns NULL and holds
  -- nothing more than before, or it returns a disk and holds only its mapping; that begins with the magic
  -- number and is not too small, or was formatted.
  pub arb_disk_load-Loads :
      (create : Bool) (w : W) (uuid : Uuid)
      → t.handles w ≡ hs
      → t.maps w ≡ ms
      → Ends
          (Unsized w (mem.file_name uuid) create)
          (Loads create)
          (arb_disk_load os mem w uuid create)
  unfolding arb_disk_load
  arb_disk_load-Loads create w uuid h m = load_file-Loads create w (mem.file_name uuid) h m
