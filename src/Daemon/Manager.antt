-- ===== src/Daemon/Manager.antt =====
-- internal/daemon/manager.go: the bridges of the daemon, keyed by serial.
-- A managed bridge has an id in place of Go's pointer, so that two bridges for one serial are told
-- apart. Each function is one critical section under the manager's lock, or a sequence of them; the
-- time is a number of nanoseconds. Waiting for a bridge to end, and its logging, are left out.
pub mod Bridges
pub mod Failures
pub mod Restart
use adb_tcp_bridge.Common.{
  ℕ, suc, ◌+◌, ◌-◌, Bool, true, false, not, ◌&&◌, ◌||◌, Option, none, some, List, [], ◌∷◌, ◌++◌,
  map, Bytes, codes, bytes_eq, Result, ok, err, leb, ◌==◌, if◌then◌else◌,
}

-- control.BridgeInfo
pub record BridgeInfo : Type 0 where
  pub serial : Bytes
  pub backend : Bytes
  pub auth : Bytes
  pub listen_addr : Bytes
  pub state : Bytes
  pub error : Bytes

-- daemon.BridgeRestore
pub record BridgeRestore : Type 0 where
  pub serial : Bytes
  pub listen_host : Bytes
  pub backend_name : Bytes
  pub adb_server : Bytes
  pub hdc_server : Bytes
  pub auth_mode : Bytes
  pub device_id : Bytes

-- managedBridge; the zero time is `none`.
pub record Item : Type 0 where
  pub id : ℕ
  pub info : BridgeInfo
  pub listener : ℕ
  pub restore : BridgeRestore
  pub last_failed_at : Option ℕ

pub record Manager : Type 0 where
  pub items : List (Bytes × Item)
  pub next_item : ℕ
  -- the ids whose context was cancelled, and the listeners that were closed
  pub cancelled : List ℕ
  pub closed : List ℕ
  pub clean_after_failure : ℕ
  pub reaper_started : Bool

pub data Error : Type 0 where
  serial_required : Error
  already_running : Bytes → Error
  no_bridge : Bytes → Error
  server_failed : Bytes → Error

-- 10 * time.Minute
abbrev pub default_clean_after_failure : ℕ
default_clean_after_failure = 600_000_000_000

abbrev pub running : Bytes
running = codes "running"

unfoldable pub new_manager : Manager
new_manager = record {
  items = [];
  next_item = 0;
  cancelled = [];
  closed = [];
  clean_after_failure = default_clean_after_failure;
  reaper_started = false;
}

unfoldable pub lookup : Bytes → List (Bytes × Item) → Option Item
lookup key [] = none
lookup key ((k, i) ∷ is) = if bytes_eq k key then some i else lookup key is

unfoldable pub delete : Bytes → List (Bytes × Item) → List (Bytes × Item)
delete key [] = []
delete key ((k, i) ∷ is) = if bytes_eq k key then delete key is else (k, i) ∷ delete key is

abbrev pub insert : Bytes → Item → List (Bytes × Item) → List (Bytes × Item)
insert key i is = (key, i) ∷ delete key is

abbrev pub is_running : Item → Bool
is_running i = bytes_eq i.info.state running

-- `existing, ok := m.items[serial]; ok && existing.info.State == "running"`
unfoldable pub runs : Bytes → Manager → Bool
runs serial m = elim (lookup serial m.items) [ none ↦ false | some i ↦ is_running i ]

abbrev pub cancel : ℕ → Manager → Manager
cancel id m = record m { cancelled = id ∷ m.cancelled }

-- What Start has found out before startItem: the listener of the new bridge, its address and
-- what is needed to restore it.
pub record StartConfig : Type 0 where
  pub serial : Bytes
  pub backend_name : Bytes
  pub auth_mode : Bytes
  pub listen_addr : Bytes

unfoldable pub make_item : StartConfig → ℕ → BridgeRestore → ℕ → Item
make_item cfg listener restore id = record {
  id = id;
  info = record {
    serial = cfg.serial;
    backend = cfg.backend_name;
    auth = cfg.auth_mode;
    listen_addr = cfg.listen_addr;
    state = running;
    error = [];
  };
  listener = listener;
  restore = restore;
  last_failed_at = none;
}

-- startItem; a new item takes the next id whether or not it is recorded.
unfoldable pub start_item :
    StartConfig → ℕ → BridgeRestore → Manager → Manager × Result Error BridgeInfo
start_item cfg listener restore m =
    let i = make_item cfg listener restore m.next_item in
    let m' = record m { next_item = suc m.next_item } in
    if runs cfg.serial m
    then (
      record m' { cancelled = i.id ∷ m.cancelled; closed = listener ∷ m.closed },
      err (already_running cfg.serial),
    )
    else (record m' { items = insert cfg.serial i m.items }, ok i.info)

-- The outcome of NewServer and Listen: an error, or a listener with what startItem is given.
abbrev pub Prepared : Type 0
Prepared = Result Bytes (StartConfig × ℕ × BridgeRestore)

unfoldable pub start_prepared : Prepared → Manager → Manager × Result Error BridgeInfo
start_prepared (err e) m = (m, err (server_failed e))
start_prepared (ok (cfg, listener, restore)) m = start_item cfg listener restore m

-- Start and Adopt, which differ in how they come by the listener.
unfoldable pub start : Bytes → Prepared → Manager → Manager × Result Error BridgeInfo
start serial prepared m =
    if bytes_eq serial []
    then (m, err serial_required)
    else if runs serial m
    then (m, err (already_running serial))
    else start_prepared prepared (record m { reaper_started = true })

-- The end of the goroutine that serves the item: its listener is closed, and the entry of its
-- serial is deleted if it is still this item.
unfoldable pub serve_exit : Bytes → ℕ → ℕ → Manager → Manager
serve_exit serial id listener m =
    let m' = record m { closed = listener ∷ m.closed } in
    elim (lookup serial m.items) [
      | none ↦ m'
      | some i ↦ if i.id == id then record m' { items = delete serial m.items } else m'
    ]

unfoldable pub stop : Bytes → Manager → Manager × Option Error
stop serial m = elim (lookup serial m.items) [
  | none ↦ (m, some (no_bridge serial))
  | some i ↦ (cancel i.id (record m { items = delete serial m.items }), none)
]

unfoldable pub bridges : List (Bytes × Item) → List BridgeInfo
bridges [] = []
bridges ((k, i) ∷ is) = i.info ∷ bridges is

abbrev pub list : Manager → List BridgeInfo
list m = bridges m.items

unfoldable pub status : Bytes → Manager → Result Error BridgeInfo
status serial m = elim (lookup serial m.items) [
  | none ↦ err (no_bridge serial)
  | some i ↦ ok i.info
]

abbrev pub ids : List (Bytes × Item) → List ℕ
ids = map (λ kv. kv.1.id)

unfoldable pub stop_all : Manager → Manager
stop_all m = record m { items = []; cancelled = ids m.items ++ m.cancelled }

-- The restore configuration and the listener of every bridge.
unfoldable pub snapshot : Manager → List (BridgeRestore × ℕ)
snapshot m = map (λ kv. (kv.1.restore, kv.1.listener)) m.items

-- The failure time after a result at `now`.
unfoldable pub failure_after : Bool → ℕ → Option ℕ → Option ℕ
failure_after true now failed = none
failure_after false now none = some now
failure_after false now (some t) = some t

unfoldable pub update : Bytes → Bool → ℕ → List (Bytes × Item) → List (Bytes × Item)
update serial fine now [] = []
update serial fine now ((k, i) ∷ is) =
    (if bytes_eq k serial
      then (k, record i { last_failed_at = failure_after fine now i.last_failed_at })
      else (k, i))
    ∷ update serial fine now is

-- onBackendResult
unfoldable pub on_backend_result : Bytes → Bool → ℕ → Manager → Manager
unfolding update failure_after
on_backend_result serial fine now m = record m { items = update serial fine now m.items }

-- `!lastFailedAt.IsZero() && now.Sub(lastFailedAt) >= cleanAfterFailure`
unfoldable pub is_expired : ℕ → ℕ → Item → Bool
is_expired now after i = elim i.last_failed_at [ none ↦ false | some t ↦ leb (t + after) now ]

unfoldable pub keep_live : ℕ → ℕ → List (Bytes × Item) → List (Bytes × Item)
keep_live now after [] = []
keep_live now after ((k, i) ∷ is) =
    if is_expired now after i then keep_live now after is else (k, i) ∷ keep_live now after is

unfoldable pub expired : ℕ → ℕ → List (Bytes × Item) → List ℕ
expired now after [] = []
expired now after ((k, i) ∷ is) =
    if is_expired now after i then i.id ∷ expired now after is else expired now after is

-- reapExpired
unfoldable pub reap_expired : ℕ → Manager → Manager
reap_expired now m = record m {
  items = keep_live now m.clean_after_failure m.items;
  cancelled = expired now m.clean_after_failure m.items ++ m.cancelled;
}
