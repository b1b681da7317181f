-- ===== src/Jni/Registry.antt =====
-- crates/jni/src/lib.rs: the registry of handles. Ids are 64 bits of which the highest is the sign.
use pushcompat.Prelude.{
  ℕ, ◌+◌, ◌%◌, ◌^◌, List, ◌∷◌, Option, none, some, Bool, true, false, ◌||◌, ◌==◌, leb, find, delete,
  if◌then◌else◌,
}
use pushcompat.Jni.Handle.{NativeHandle, new_handle, store_flag}

pub record Registry : Type 0 where
  pub handles : List (ℕ × NativeHandle)
  pub next_handle : ℕ

-- What a call gives back to Java.
pub data Called (A : Type 0) : Type 0 where
  done : A → Called A
  unbuilt exhausted unknown_handle : Called A

abbrev pub has_id : ℕ → ℕ × NativeHandle → Bool
has_id id entry = entry.0 == id

abbrev pub called : Option (ℕ × NativeHandle) → Called NativeHandle
called none = unknown_handle
called (some (id, h)) = done h

unfoldable pub get_handle : ℕ → Registry → Called NativeHandle
get_handle id r = called (find (has_id id) r.handles)

-- `id <= 0` for an `i64`.
abbrev pub not_positive : ℕ → Bool
not_positive id = id == 0 || leb (2 ^ 63) id

-- `HashMap::insert` under a key replaces what was there.
abbrev pub insert_handle : ℕ → NativeHandle → List (ℕ × NativeHandle) → List (ℕ × NativeHandle)
insert_handle id h handles = (id, h) ∷ delete (has_id id) handles

-- `fetch_add` wraps round. `built` says whether the runtime and the client could be made.
unfoldable pub create_handle : Bool → Registry → Called ℕ × Registry
create_handle false r = (unbuilt, r)
create_handle true r =
    let next = (r.next_handle + 1) % 2 ^ 64 in
    if not_positive r.next_handle then (exhausted, record r { next_handle = next }) else (
      done r.next_handle,
      record { handles = insert_handle r.next_handle new_handle r.handles; next_handle = next },
    )

abbrev pub destroyed : ℕ → Registry → Option (ℕ × NativeHandle) → Called NativeHandle × Registry
destroyed id r none = (unknown_handle, r)
destroyed id r (some (i, h)) =
    (done (store_flag h), record r { handles = delete (has_id id) r.handles })

-- The handle goes, and then it is asked to stop: it is given back with its flag stored.
unfoldable pub destroy_handle : ℕ → Registry → Called NativeHandle × Registry
unfolding store_flag
destroy_handle id r = destroyed id r (find (has_id id) r.handles)
