-- ===== src/Signals/Store.antt =====
-- `SignalStore` of crates/agent/src/signal.rs. The readings of the clock are arguments.
use hkgov_rethink.Prelude.{
  ℕ, Bool, true, false, ◌||◌, List, [], reverse, Option, none, some, Text, text_key, Map, get,
  insert, remove, values, same, is_empty, length, take, select, insert_all, if◌then◌else◌,
}
use hkgov_rethink.Scheduler.Targets.{ScanTarget}

pub data SignalChannel : Type 0 where
  -- The address, or the chat, and whether it is verified
  email telegram : Text → Bool → SignalChannel
  slack : Text → SignalChannel
  rss : SignalChannel

pub record Signal : Type 0 where
  pub id : Text
  pub owner : Text
  pub question : Text
  pub compiled : ScanTarget
  pub channels : List SignalChannel
  pub enabled : Bool
  pub created_at : ℕ
  pub updated_at : Option ℕ

pub record SignalPatch : Type 0 where
  pub question : Option Text
  pub compiled : Option ScanTarget
  pub channels : Option (List SignalChannel)
  pub enabled : Option Bool

pub record SignalStore : Type 0 where
  pub inner : Map Text Signal

pub record SignalStoreSnapshot : Type 0 where
  pub signals : List Signal

unfoldable pub empty : SignalStore
empty = record { inner = [] }

unfoldable pub create : SignalStore → Signal → SignalStore × Signal
create s signal = (record { inner = insert signal.id signal s.inner }, signal)

unfoldable pub find : SignalStore → Text → Option Signal
find s id = get id s.inner

unfoldable pub list : SignalStore → Text → ℕ → List Signal
list s owner limit =
    take limit (reverse (select (λ g. is_empty owner || same g.owner owner) (values s.inner)))

unfoldable pub list_owned : SignalStore → Text → ℕ → List Signal
list_owned s owner limit =
    if is_empty owner
    then []
    else take limit (reverse (select (λ g. same g.owner owner) (values s.inner)))

-- `Option::filter` by the owner.
abbrev pub owned_by : Text → Option Signal → Option Signal
owned_by owner none = none
owned_by owner (some g) = if same g.owner owner then some g else none

unfoldable pub get_owned : SignalStore → Text → Text → Option Signal
get_owned s id owner = owned_by owner (get id s.inner)

-- The signal is stored under its own id, if there is one at that id.
unfoldable pub replace : SignalStore → Signal → Option Signal → SignalStore × Option Signal
replace s g none = (s, none)
replace s g (some old) = (record { inner = insert g.id g s.inner }, some g)

unfoldable pub update : SignalStore → Signal → ℕ → SignalStore × Option Signal
unfolding replace
update s signal now = replace s (record signal { updated_at = some now }) (get signal.id s.inner)

abbrev pub or_kept : {A : Type 0} → A → Option A → A
or_kept old none = old
or_kept old (some new) = new

unfoldable pub patched : ℕ → SignalPatch → Signal → Signal
patched now patch g = record g {
  question = or_kept g.question patch.question;
  compiled = or_kept g.compiled patch.compiled;
  channels = or_kept g.channels patch.channels;
  enabled = or_kept g.enabled patch.enabled;
  updated_at = some now;
}

-- What `get_mut` returned and the owner's gate let through is patched in place.
unfoldable pub patch_in :
    SignalStore → Text → SignalPatch → ℕ → Option Signal → SignalStore × Option Signal
unfolding patched
patch_in s id patch now none = (s, none)
patch_in s id patch now (some g) =
    (record { inner = insert id (patched now patch g) s.inner }, some (patched now patch g))

unfoldable pub update_owned :
    SignalStore → Text → Text → SignalPatch → ℕ → SignalStore × Option Signal
unfolding patch_in
update_owned s id owner patch now = patch_in s id patch now (owned_by owner (get id s.inner))

unfoldable pub take_out : SignalStore → Text → Option Signal → SignalStore × Bool
take_out s id none = (s, false)
take_out s id (some g) = (record { inner = remove id s.inner }, true)

unfoldable pub delete : SignalStore → Text → SignalStore × Bool
unfolding take_out
delete s id = take_out s id (get id s.inner)

unfoldable pub delete_owned : SignalStore → Text → Text → SignalStore × Bool
unfolding take_out
delete_owned s id owner = take_out s id (owned_by owner (get id s.inner))

unfoldable pub count : SignalStore → ℕ
count s = length s.inner

unfoldable pub snapshot : SignalStore → SignalStoreSnapshot
snapshot s = record { signals = values s.inner }

-- What is there stays.
unfoldable pub restore : SignalStore → SignalStoreSnapshot → SignalStore
restore s snap = record { inner = insert_all (λ g. g.id) s.inner snap.signals }
