-- ===== src/Tests/Arbiter.antt =====
-- The arbiter at concrete inputs.
use duallive.Base.{
  ℕ, ◌+◌, ◌≡◌, arith, List, [], ◌∷◌, true, not, ◌==◌, Option, some, none, ok, Returns, Follows,
}
use duallive.Duallive.{Ver, Desc}
use duallive.ArbUuid.{Disks, Manager, cache_cleanup, arb_uuid_lock}
use duallive.ArbUuid.Sound.{Sound}
use duallive.ArbUuid.Locks.{disk_of}
use duallive.Arbiter.{
  DiskInst, DiskCalls, LockFile, put_flock, arb_uuid_mgr_fini, arb_disk_init, arb_disk_remove,
  arb_select_master_slave, arb_query_master_slave,
}
use duallive.Arbiter.Held.{Owned}
use duallive.Arbiter.Spec.{answer_request, remove_request}
use duallive.Arbiter.Sessions.{Answered, Removed, masters-Follow, arb_disk_remove-Follows}
use duallive.Arbiter.Ending.{
  nobody, Emptied, Started, new_manager-Sound, arb_uuid_mgr_fini-Empties, arb_disk_init-Starts,
}
use duallive.Tests.Trees.{Tree, lists, law}
use duallive.Demo.Tables.{dl_ap_ver}

-- A file is how many pairs it holds, and the state counts the files that were unloaded.
abbrev file_disks : Disks ℕ (DiskInst ℕ)
file_disks = record { holds_pairs = λ w d. not (d.fm == 0); unload = λ w d. w + 1 }

-- The lock file has the descriptor 3, and the state counts its locks.
abbrev lock_file : LockFile ℕ
lock_file = record {
  open_lock = λ w. (some 3, w);
  flock = λ w fd. (true, w + 1);
  flock_un = λ w fd. w;
  close = λ w fd. w;
  make_workspace = λ w. (true, w);
}

-- Each file is there, and holds no pair; a pair is one more. What is asked for is the answer.
abbrev calls : DiskCalls ℕ ℕ
calls = record {
  load = λ w u create. ok (some 0, w);
  insert_dli = λ w d desc. ok (some 384, d + 1, w);
  remove_dli = λ w d desc. ok (0, w);
  sel_ms = λ w d req. ok (req, d.fm, w);
  query_ms = λ w d req. ok (req, d.fm, w);
}

abbrev desc_1 : Desc
desc_1 = record {
  uuid = record { uuid0 = 0xab; uuid1 = 1 };
  local_hostid = 1;
  local_dataset = 0 ∷ [];
  remote_dataset = 0 ∷ [];
  remote_hostid = 2;
  arbitrary_ip = 0 ∷ [];
  arbitrary_port = 0;
}

abbrev ver_1 : Ver
ver_1 = dl_ap_ver 1 2 3

abbrev new_manager : Manager Tree (List ℕ) (DiskInst ℕ)
new_manager = record { tree = []; cache = []; nodes = λ a. none; next = 0 }

new_manager-Empty : Sound lists law nobody nobody new_manager
new_manager-Empty = new_manager-Sound lists file_disks lock_file law

none_is_some : {A : Type 0} {a : A} → ◌≡◌ {A = Option A} none (some a) → ⊥
none_is_some e = cc

new_manager-Owned : Owned lists file_disks calls law 100 nobody new_manager
new_manager-Owned = record {
  sound = new_manager-Empty;
  linked = λ a n d e. absurd (none_is_some e);
}

masters-Follow_example :
    Returns
      (λ l.
        Follows
          (Answered lists file_disks calls law 100 nobody l.0)
          (answer_request calls 100 calls.sel_ms l.2 l.0
            (disk_of lists file_disks law new_manager desc_1.uuid)
            desc_1
            ver_1)
          (arb_select_master_slave lists file_disks calls 100 new_manager 0 desc_1 ver_1)
        × Follows
            (Answered lists file_disks calls law 100 nobody l.0)
            (answer_request calls 100 calls.query_ms l.2 l.0
              (disk_of lists file_disks law new_manager desc_1.uuid)
              desc_1
              ver_1)
            (arb_query_master_slave lists file_disks calls 100 new_manager 0 desc_1 ver_1))
      (arb_uuid_lock lists file_disks new_manager 0 desc_1.uuid)
masters-Follow_example =
    masters-Follow lists file_disks calls law 100 nobody new_manager 0 desc_1 ver_1
      new_manager-Owned (λ a. omega arith)

arb_disk_remove-Follows_example :
    Returns
      (λ l.
        Follows
          (Removed lists file_disks calls law 100 nobody l.0)
          (remove_request calls 100 l.2 l.0
            (disk_of lists file_disks law new_manager desc_1.uuid)
            desc_1)
          (arb_disk_remove lists file_disks calls 100 new_manager 0 desc_1))
      (arb_uuid_lock lists file_disks new_manager 0 desc_1.uuid)
arb_disk_remove-Follows_example =
    arb_disk_remove-Follows lists file_disks calls law 100 nobody new_manager 0 desc_1
      new_manager-Owned (λ a. omega arith)

arb_uuid_mgr_fini-Empties_example :
    Returns
      (λ r.
        Emptied lists file_disks lock_file law r.0
        × (arb_uuid_mgr_fini lists file_disks lock_file 3 new_manager 0
            ≡ ok (put_flock lock_file r.1 3)))
      (cache_cleanup lists file_disks new_manager 0 0)
arb_uuid_mgr_fini-Empties_example =
    arb_uuid_mgr_fini-Empties lists file_disks lock_file law 3 new_manager 0 new_manager-Empty

arb_disk_init-Starts_example :
    Started lists file_disks lock_file law 0 (arb_disk_init lists file_disks lock_file 0)
arb_disk_init-Starts_example = arb_disk_init-Starts lists file_disks lock_file law 0
