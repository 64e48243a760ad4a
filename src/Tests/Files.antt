-- ===== src/Tests/Files.antt =====
-- The calls on a mapped file, with an operating system that always obliges.
use duallive.Base.{
  ℕ, ◌+◌, ◌≡◌, refl, ap, arith, List, [], ◌∷◌, ◌++◌, take, replicate, length, length-append,
  length-take, length-replicate, take-append, Ends, true, false, Option, none, some, Returns, inr,
}
use duallive.Base.Memory.{Bytes}
use duallive.FileSystem.{System, regular}
use duallive.FileMap.{calc_map_size, FileMap, fm_normal, fm_rdonly, file_map_set_size}
use duallive.FileMap.Resources.{Tracks, Handle, descriptor, stream}
use duallive.FileMap.Growth.{Sizes, Flushes}
use duallive.FileMap.SetSize.{file_map_set_size-Resized, Resized}
use duallive.FileMap.Sessions.{Call, open_map, set_size, expand, sync, session, session-gives_back}
use duallive.DiskFile.{Shared, arb_disk_load, arb_disk_unload}
use duallive.DiskFile.Unload.{arb_disk_unload-returns}
use duallive.DiskFile.Loads.{Keeps, Unsized, Loads, arb_disk_load-Loads}
use duallive.Duallive.{Uuid}
use duallive.Base.Text.{codes, c_string}
use duallive.Tests.Data.{zeroed}

-- What is held, the length of the one file there is, the path that was opened last, and the memory that
-- is mapped.
record State : Type 0 where
  held : List Handle
  mapped : List (ℕ × ℕ)
  file : ℕ
  opened : Bytes
  memory : Bytes

abbrev drop_first {ℓ} : {A : Type ℓ} → List A → List A
drop_first [] = []
drop_first (a ∷ rest) = rest

-- Every path names the file.
abbrev obliging : System State
obliging = record {
  stat = λ w p. some (record { mode = regular; size = w.file });
  readlink = λ w p path. none;
  access = λ w p. true;
  open_file = λ w p b. (some 3, record w { held = descriptor 3 ∷ w.held });
  close = λ w fd. record w { held = drop_first w.held };
  device_size = λ w fd. none;
  mmap = λ w n a b fd. (some 4096, record w { mapped = (4096, n) ∷ w.mapped });
  munmap = λ w start n. record w { mapped = drop_first w.mapped };
  truncate = λ w p n. (true, record w { file = n });
  fopen = λ w p. (some 5, record w { held = stream 5 ∷ w.held; opened = p });
  fwrite = λ w fp n. (true, record w { file = w.file + n });
  fclose = λ w fp. (true, record w { held = drop_first w.held });
  fsync = λ w fd. (true, w);
}

tracks : Tracks obliging
tracks = record {
  handles = λ w. w.held;
  maps = λ w. w.mapped;
  open_handles = λ w p b. refl;
  open_maps = λ w p b. refl;
  close_handles = λ w fd hs e. ap drop_first e;
  close_maps = λ w fd. refl;
  fopen_handles = λ w p. refl;
  fopen_maps = λ w p. refl;
  fclose_handles = λ w fp hs e. ap drop_first e;
  fclose_maps = λ w fp. refl;
  fwrite_handles = λ w fp n. refl;
  fwrite_maps = λ w fp n. refl;
  truncate_handles = λ w p n. refl;
  truncate_maps = λ w p n. refl;
  fsync_handles = λ w fd. refl;
  fsync_maps = λ w fd. refl;
  mmap_handles = λ w n a b fd. refl;
  mmap_maps = λ w n a b fd. refl;
  munmap_handles = λ w start n. refl;
  munmap_maps = λ w start n ms e. ap drop_first e;
}

some_is_none : {n : ℕ} → some n ≡ none → ⊥
some_is_none e = ground arith

some-number : {a b : ℕ} → ◌≡◌ {A = Option ℕ} (some a) (some b) → a ≡ b
some-number e = cc

sizes : Sizes obliging
sizes = record {
  length = λ w p. some w.file;
  target = λ w fp. w.opened;
  closes_at = λ w fp. w.file;
  stat_length = λ w p n e. ap (λ n. some (record { mode = regular; size = n })) (some-number e);
  stat_none = λ w p e. absurd (some_is_none e);
  access_some = λ w p n e. refl;
  access_none = λ w p e. absurd (some_is_none e);
  fopen_target = λ w p fp e. refl;
  fopen_closes_at = λ w p fp e. refl;
  fwrite_target = λ w fp n. refl;
  fwrite_closes_at = λ w fp n e. refl;
  fclose_length = λ w fp e. refl;
  truncate_length = λ w p n e. refl;
  open_length = λ w p q b. refl;
  close_length = λ w p fd. refl;
  mmap_length = λ w p n a b fd. refl;
  munmap_length = λ w p start n. refl;
}

flushes : Flushes obliging
flushes w fp = refl

abbrev state_4096 : State
state_4096 = record { held = []; mapped = (4096, 4096) ∷ []; file = 4096; opened = []; memory = [] }

abbrev mapped_4096 : FileMap
mapped_4096 = record {
  path = c_string "/etc/duallive/1";
  buf = some 4096;
  size = 4096;
  mode = fm_normal;
}

file_map_set_size-Resized_example :
    Returns
      (Resized obliging sizes flushes mapped_4096 10000)
      (file_map_set_size obliging state_4096 mapped_4096 10000)
unfolding sizes
file_map_set_size-Resized_example =
    file_map_set_size-Resized obliging sizes flushes state_4096 mapped_4096 10000 (inr refl)

abbrev calls : List Call
calls = open_map false fm_normal ∷ expand 100 ∷ sync ∷ open_map true fm_rdonly ∷ set_size 8192 ∷ []

session-gives_back_example :
    Returns
      (λ w'. (w'.held ≡ []) × (w'.mapped ≡ (4096, 4096) ∷ []))
      (session obliging state_4096 (c_string "/etc/duallive/2") calls)
unfolding tracks
session-gives_back_example =
    session-gives_back obliging tracks state_4096 (c_string "/etc/duallive/2") calls

abbrev uuid_1 : Uuid
uuid_1 = record { uuid0 = 0xab; uuid1 = 1 }

-- Behind what was stored the memory is zero.
abbrev shared : Shared State
shared = record {
  contents = λ w start n. take n (w.memory ++ replicate n 0);
  store = λ w start bs. record w { memory = bs };
  system = λ w cmd. (true, w);
  file_name = λ u. codes "/tmp/duallive_arbitrary/ab.1.dat";
}

keeps : Keeps obliging tracks shared
unfolding tracks
keeps = record {
  contents_length = λ w start n.
      length-take n (w.memory ++ replicate n 0)
        (omega (arith, length-append w.memory (replicate n 0), length-replicate {A = ℕ} n 0));
  contents_store = λ w start bs. take-append (length bs) bs (replicate (length bs) 0) refl;
  store_keeps = λ w start bs. (refl, refl);
  system_keeps = λ w cmd. (refl, refl);
}

arb_disk_load-Loads_example :
    Ends
      (Unsized obliging tracks shared keeps []
        ((4096, 4096) ∷ [])
        state_4096
        (shared.file_name uuid_1)
        true)
      (Loads obliging tracks shared keeps [] ((4096, 4096) ∷ []) true)
      (arb_disk_load obliging shared state_4096 uuid_1 true)
unfolding tracks
arb_disk_load-Loads_example =
    arb_disk_load-Loads obliging tracks shared keeps [] ((4096, 4096) ∷ []) true state_4096 uuid_1
      refl refl

arb_disk_unload-returns_example :
    Returns
      (λ w'. (w'.held ≡ []) × (w'.mapped ≡ []))
      (arb_disk_unload obliging shared state_4096 (some mapped_4096))
unfolding tracks calc_map_size
arb_disk_unload-returns_example =
    arb_disk_unload-returns obliging tracks shared keeps [] [] state_4096 mapped_4096
      (record { handles = refl; maps = refl })
      (record { start = 4096; is_start = refl; some_byte = omega arith; bounded = omega arith })
