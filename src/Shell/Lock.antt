-- ===== src/Shell/Lock.antt =====
-- internal/shell/lock.go: the lock on the configuration, which is a file that a session holds with
-- flock. A path leads to an inode, or to none; a lock is on an inode and belongs to one open file. A
-- reading of the metadata goes by the path, as `os.ReadFile(f.Name())` does.
use libra_flux.Base.{
  ℕ, zero, suc, ◌==◌, Bool, true, false, not, Option, none, some, [], ℤ, pos, leb_ℤ, eqb_ℤ, ◌-ℤ◌,
  Result, ok, err, if◌then◌else◌, ==_iff,
}
use libra_flux.Base.Text.{GoString, ◌=s◌}
use libra_flux.Base.Assoc.{Assoc, Eq, lookup, insert, erase}

instance abbrev pub ℕ_eq : Eq ℕ
ℕ_eq = record { beq = ◌==◌; beq_iff = ==_iff }

-- `last_activity` is none for the zero Time.
pub record LockMetadata : Type 0 where
  pub pid : ℤ
  pub user : GoString
  pub host : GoString
  pub tty : GoString
  pub started_at : Option ℤ
  pub last_activity : Option ℤ

pub record LockIdentity : Type 0 where
  pub pid : ℤ
  pub user : GoString
  pub host : GoString
  pub tty : GoString

-- What a file holds, as json.Unmarshal sees it.
pub data Content : Type 0 where
  blank garbled : Content
  encoded : LockMetadata → Content

-- `at_path` is the inode under the manager's path, `owners` the open file that has the lock of an
-- inode. The numbers from `next` on are of no inode and of no open file yet.
pub record Files : Type 0 where
  pub at_path : Option ℕ
  pub contents : Assoc ℕ Content
  pub owners : Assoc ℕ ℕ
  pub next : ℕ

-- The errors of the operating system have one type.
pub data LockError (E : Type 0) : Type 0 where
  create_directory open_file read_file write_file : E → LockError E
  metadata_empty metadata_garbled : LockError E
  lock_held : LockMetadata → Option ℤ → LockError E
  recovery_failed refusing_without_force none_held own_lock : LockError E
  already_released : LockError E

-- What one call asks of the system: which of its requests fail, the other processes, the clock, and
-- the identity of the process itself. A write that fails comes with what the file holds afterwards.
pub record System (E : Type 0) : Type 0 where
  pub mkdir_error : Option E
  pub open_error : Option E
  pub write_error : Option (E × Content)
  pub is_alive : ℤ → Bool
  pub command_name : ℤ → Result E GoString
  pub now : ℤ
  pub default_identity : LockIdentity

pub record HeldLock : Type 0 where
  pub inode : ℕ
  pub file : ℕ
  pub metadata : LockMetadata
  pub released : Bool

-- Audit events, in the order in which they are emitted.
pub data LockEvent : Type 0 where
  acquired recovered : LockEvent

abbrev no_metadata : LockMetadata
no_metadata = record {
  pid = pos 0;
  user = [];
  host = [];
  tty = [];
  started_at = none;
  last_activity = none;
}

abbrev pub parsed : {E : Type 0} → Option Content → Result (LockError E) LockMetadata
parsed none = err metadata_empty
parsed (some blank) = err metadata_empty
parsed (some garbled) = err metadata_garbled
parsed (some (encoded d)) = ok d

-- readMetadataFromFile; a path that leads nowhere is an error too, whose text no caller reads.
unfoldable pub read_metadata : {E : Type 0} → Files → Result (LockError E) LockMetadata
unfolding lookup
read_metadata f = elim f.at_path [
  | none ↦ err metadata_empty
  | some i ↦ parsed (lookup i f.contents)
]

-- isStale. `comm` is `ExpectedComm`, "lbctl" by default.
unfoldable pub is_stale : {E : Type 0} → GoString → System E → LockMetadata → Bool
is_stale comm sys d =
    if leb_ℤ d.pid (pos 0)
    then true
    else if not (sys.is_alive d.pid)
    then true
    else elim (sys.command_name d.pid) [ err e ↦ false | ok name ↦ not (name =s comm) ]

abbrev default_text : GoString → GoString → GoString
default_text d s = if s =s [] then d else s

-- The identity, with defaults for what it leaves open.
unfoldable pub complete_identity : {E : Type 0} → System E → LockIdentity → LockIdentity
complete_identity sys id =
    let d = sys.default_identity in
    record {
      pid = if eqb_ℤ id.pid (pos 0) then d.pid else id.pid;
      user = default_text d.user id.user;
      host = default_text d.host id.host;
      tty = default_text d.tty id.tty;
    }

-- os.OpenFile with O_CREATE, given the inode under the path: it, or a new and empty one. The second
-- component is the number of the open file.
unfoldable pub open_or_create : Option ℕ → Files → ℕ × ℕ × Files
open_or_create (some i) f = (i, f.next, record f { next = suc f.next })
open_or_create none f = (
  f.next,
  suc f.next,
  record f {
    at_path = some f.next;
    contents = insert f.next blank f.contents;
    next = suc (suc f.next);
  },
)

-- os.Remove of the path; the inode stays for who has it open.
unfoldable pub unlink : Files → Files
unlink f = record f { at_path = none }

abbrev pub new_metadata : {E : Type 0} → System E → LockIdentity → LockMetadata
new_metadata sys id = record {
  pid = id.pid;
  user = id.user;
  host = id.host;
  tty = id.tty;
  started_at = some sys.now;
  last_activity = some sys.now;
}

abbrev pub Acquired : Type 0 → Type 0
Acquired E = Result (LockError E) HeldLock × Files

-- The metadata is written into the file whose lock is taken, or the lock is given up.
unfoldable pub take_written :
    {E : Type 0} → Option (E × Content) → LockMetadata → ℕ → ℕ → Files → Acquired E
take_written (some (e, left)) d i h f = (
  err (write_file e),
  record f { owners = erase i f.owners; contents = insert i left f.contents },
)
take_written none d i h f = (
  ok (record { inode = i; file = h; metadata = d; released = false }),
  record f { contents = insert i (encoded d) f.contents },
)

unfoldable pub take : {E : Type 0} → System E → LockIdentity → ℕ → ℕ → Files → Acquired E
unfolding take_written
take sys id i h f =
    take_written sys.write_error (new_metadata sys id) i h
      (record f { owners = insert i h f.owners })

-- The answer to a session that finds the lock taken.
unfoldable pub refuse : {E : Type 0} → System E → Result (LockError E) LockMetadata → LockError E
refuse sys (err e) = lock_held no_metadata none
refuse sys (ok d) =
    lock_held d (elim d.last_activity [ none ↦ none | some t ↦ some (sys.now -ℤ t) ])

abbrev pub recoverable :
    {E : Type 0} → GoString → System E → Result (LockError E) LockMetadata → Bool
recoverable comm sys (err e) = false
recoverable comm sys (ok d) = is_stale comm sys d

-- The file is open: its lock is free, or it is another's, which is then stale or not.
unfoldable pub lock_open :
    {E : Type 0}
    → GoString
    → System E
    → LockIdentity
    → (Files → Acquired E)
    → Option ℕ
    → ℕ
    → ℕ
    → Files
    → Acquired E
unfolding take refuse unlink read_metadata is_stale
lock_open comm sys id again none i h f = take sys id i h f
lock_open comm sys id again (some other) i h f =
    if recoverable comm sys (read_metadata f)
    then again (unlink f)
    else (err (refuse sys (read_metadata f)), f)

unfoldable pub open_and_lock :
    {E : Type 0}
    → GoString
    → System E
    → LockIdentity
    → (Files → Acquired E)
    → Option E
    → Files
    → Acquired E
unfolding lock_open open_or_create
open_and_lock comm sys id again (some e) f = (err (open_file e), f)
open_and_lock comm sys id again none f =
    let (i, h, g) = open_or_create f.at_path f in
    lock_open comm sys id again (lookup i g.owners) i h g

-- The rounds of `Acquire`, with as many attempts left as the number says.
unfoldable pub attempts : {E : Type 0} → GoString → System E → LockIdentity → ℕ → Files → Acquired E
unfolding open_and_lock
attempts comm sys id zero f = (err recovery_failed, f)
attempts comm sys id (suc n) f = open_and_lock comm sys id (attempts comm sys id n) sys.open_error f

-- The call once the directory is there, or why it is not.
unfoldable pub acquire_in :
    {E : Type 0} → GoString → System E → LockIdentity → Option E → Files → Acquired E
unfolding attempts
acquire_in comm sys id (some e) f = (err (create_directory e), f)
acquire_in comm sys id none f = attempts comm sys (complete_identity sys id) 2 f

-- Acquire
unfoldable pub acquire : {E : Type 0} → GoString → System E → LockIdentity → Files → Acquired E
unfolding acquire_in
acquire comm sys id f = acquire_in comm sys id sys.mkdir_error f

-- The metadata goes into the open file, which need not be under the path any more.
unfoldable pub write_activity :
    {E : Type 0}
    → Option (E × Content)
    → LockMetadata
    → HeldLock
    → Files
    → Option (LockError E) × HeldLock × Files
write_activity (some (e, left)) d l f = (
  some (write_file e),
  record l { metadata = d },
  record f { contents = insert l.inode left f.contents },
)
write_activity none d l f =
    (none, record l { metadata = d }, record f { contents = insert l.inode (encoded d) f.contents })

-- UpdateActivity
unfoldable pub update_activity :
    {E : Type 0} → System E → HeldLock → Files → Option (LockError E) × HeldLock × Files
unfolding write_activity
update_activity sys l f =
    if l.released
    then (some already_released, l, f)
    else write_activity sys.write_error (record (l.metadata) { last_activity = some sys.now }) l f

-- Release gives up the lock of the inode, and only then removes the path.
unfoldable pub unlock : HeldLock → Files → Files
unlock l f = record f { owners = erase l.inode f.owners }

unfoldable pub release : HeldLock → Files → HeldLock × Files
unfolding unlock unlink
release l f = if l.released then (l, f) else (record l { released = true }, unlink (unlock l f))

-- Status: the metadata of the session that holds the lock, or none.
unfoldable pub status : {E : Type 0} → System E → Files → Result (LockError E) (Option LockMetadata)
unfolding read_metadata
status sys f = elim sys.open_error [
  | some e ↦ err (open_file e)
  | none ↦ elim f.at_path [
    | none ↦ ok none
    | some i ↦ elim (lookup i f.owners) [
      | none ↦ ok none
      | some h ↦ elim (read_metadata f) [ ok d ↦ ok (some d) | err e ↦ err e ]
    ]
  ]
]
