-- ===== src/Middleware/Service/Heartbeat.antt =====
-- When a reading is dropped because it repeats the last one, and what is remembered of a device.
use ygate_git.Base.{
  ◌≡◌, ◌≢◌, refl, sym, ◌∙◌, Bool-cases, inl, inr, none, some, List, [], ◌∷◌, ◌++◌, arith,
}
use ygate_git.Base.Int.{ℤ, pos, negsuc, ◌-ℤ◌, ◌≤ℤ◌, ◌<ℤ◌}
use ygate_git.Base.Text.{Text, lit, text_eq, text_eq_iff, text_eq_refl}
use ygate_git.Middleware.Domain.{Reading}
use ygate_git.Middleware.Store.File.{map_get, map_put}
use ygate_git.Middleware.Service.{World}
use ygate_git.Middleware.Service.Idle.{
  Idle, set_idle_heartbeat, heartbeat, map_delete, device_key, values_hash,
}

module _ {V : Type 0} where
  pub map_get-put : (k : Text) (v : V) (m : List (Text × V)) → map_get k (map_put k v m) ≡ some v
  unfolding map_get map_put
  map_get-put k v [] = rw (text_eq_refl k) refl
  map_get-put k v ((j, w) ∷ m) = elim (Bool-cases (text_eq j k)) [
    | inl same ↦ rw (same, same) refl
    | inr other ↦ rw (other, other, map_get-put k v m)
  ]

  pub map_get-put_other :
      (j k : Text) (v : V) (m : List (Text × V)) → j ≢ k → map_get j (map_put k v m) ≡ map_get j m
  unfolding map_get map_put
  map_get-put_other j k v [] h = elim (Bool-cases (text_eq k j)) [
    | inl same ↦ absurd (h (sym ((text_eq_iff k j).0 same)))
    | inr other ↦ rw other refl
  ]
  map_get-put_other j k v ((i, w) ∷ m) h = elim (Bool-cases (text_eq i k)) [
    | inl same ↦ elim (Bool-cases (text_eq i j)) [
      | inl twice ↦ absurd (h (sym ((text_eq_iff i j).0 twice) ∙ (text_eq_iff i k).0 same))
      | inr missed ↦ rw (same, missed) refl
    ]
    | inr other ↦ rw other (ground (arith, map_get-put_other j k v m h))
  ]

  pub map_get-delete : (k : Text) (m : List (Text × V)) → map_get k (map_delete k m) ≡ none
  unfolding map_get map_delete
  map_get-delete k [] = refl
  map_get-delete k ((j, v) ∷ m) = elim (Bool-cases (text_eq j k)) [
    | inl same ↦ rw (same, map_get-delete k m)
    | inr other ↦ rw (other, other, map_get-delete k m)
  ]

-- The heartbeat in force is always between one minute and one day.
pub heartbeat_bounds :
    (seconds : ℤ) (s : Idle)
    → (pos 60000 ≤ℤ heartbeat (set_idle_heartbeat seconds s))
      × (heartbeat (set_idle_heartbeat seconds s) ≤ℤ pos 86400000)
unfolding heartbeat set_idle_heartbeat
heartbeat_bounds (pos n) s = ground arith
heartbeat_bounds (negsuc n) s = ground arith

-- The text of a key.
abbrev key_text : Text → Text → Text → Text → Text
key_text gateway plant kind device =
    gateway ++ lit "|" ++ plant ++ lit "|" ++ kind ++ lit "|" ++ device

-- A reading is the same as an earlier one and less than a heartbeat after it.
pub record IsRepeat {F : Type 0} (w : World F) (beat : ℤ) (earlier r : Reading F) : Type 0 where
  pub same_values :
      w.values_json earlier.register_address_map ≡ w.values_json r.register_address_map
  pub not_before : earlier.collect_time ≤ℤ r.collect_time
  pub no_heartbeat : r.collect_time -ℤ earlier.collect_time <ℤ beat

module _ {F : Type 0} (w : World F) where
  -- What is remembered after a reading that is not dropped.
  remembered : Reading F → Idle → Idle
  remembered r s = record s {
    last_enqueued =
        map_put (device_key r) (record { values = values_hash w r; at = r.collect_time })
          s.last_enqueued;
  }
