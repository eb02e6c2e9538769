-- ===== src/Middleware/Store/Normalize/Connections.antt =====
-- What `normalizeConnection` gives.
use ygate_git.Base.{
  ◌≡◌, inl, inr, refl, ◌∙◌, Bool, false, not, ◌&&◌, ◌||◌, if◌then◌else◌, arith, Bool-cases,
}
use ygate_git.Base.Int.{ℤ, pos, ◌≤ℤ◌, ltb_ℤ, leb_ℤ}
use ygate_git.Base.Text.{
  Text, is_empty, to_upper, trim_space, trim_space_idem, trim_space-to_upper, is_empty-to_upper,
}
use ygate_git.Middleware.Domain.{ConnectionConfig}
use ygate_git.Middleware.Store.Normalize.{
  is_blank, or_if_blank, cut_head, plant_from_connection_name, normalize_connection,
}

-- The unit id of a normalized connection is at least 1, so no read goes to the broadcast address 0,
-- and the slave id repeats it. A unit id that was set is kept, and in its place a legacy slave id.
pub normalize_connection-unit_id :
    (v : ConnectionConfig)
    → let v' = normalize_connection v in
      (pos 1 ≤ℤ v'.unit_id)
      × (v'.slave_id ≡ v'.unit_id)
      × (pos 1 ≤ℤ v.unit_id → v'.unit_id ≡ v.unit_id)
      × (v.unit_id ≤ℤ pos 0 → pos 1 ≤ℤ v.slave_id → v'.unit_id ≡ v.slave_id)
unfolding normalize_connection
normalize_connection-unit_id v = (ground arith, refl, λ h. ground arith, λ h k. ground arith)

unit_of : ℤ → ℤ → ℤ
unit_of unit slave =
    let u = if leb_ℤ unit (pos 0) && ltb_ℤ (pos 0) slave then slave else unit in
    if leb_ℤ u (pos 0) then pos 1 else u

unit_of_idem : (u s : ℤ) → unit_of (unit_of u s) (unit_of u s) ≡ unit_of u s
unfolding unit_of
unit_of_idem u s = ground arith

or_if_blank_idem : (v d : Text) → or_if_blank (or_if_blank v d) d ≡ or_if_blank v d
or_if_blank_idem v d = ground arith

is_blank-upper_name : (s : Text) → is_blank (to_upper (trim_space s)) ≡ is_blank s
is_blank-upper_name s =
    rw (trim_space-to_upper (trim_space s), trim_space_idem s) (is_empty-to_upper (trim_space s))

-- A plant code that is derived from a name is not blank.
plant_from_connection_name-not_blank :
    (name : Text) → is_blank (plant_from_connection_name name) ≡ false
unfolding plant_from_connection_name
plant_from_connection_name-not_blank name =
    let head = (cut_head (trim_space name)).0 in
    elim (Bool-cases (not (cut_head (trim_space name)).1 || is_blank head)) [
      | inl default ↦ rw default (unfold trim_space is_empty in refl)
      | inr derived ↦ rw derived (is_blank-upper_name head ∙ not_blank _ _ derived)
    ]
  where
    not_blank : (a b : Bool) → a || b ≡ false → b ≡ false
    not_blank a b h = ground arith

-- Normalizing a connection twice is normalizing it once, so a configuration that is pushed, stored
-- and pushed back stays as it is.
pub normalize_connection_idem :
    (v : ConnectionConfig) → normalize_connection (normalize_connection v) ≡ normalize_connection v
unfolding normalize_connection
normalize_connection_idem v = ground (
  arith,
  trim_space_idem v.connection_name,
  trim_space_idem v.host,
  unit_of_idem v.unit_id v.slave_id,
)
