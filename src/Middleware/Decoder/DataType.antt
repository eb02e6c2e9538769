-- ===== src/Middleware/Decoder/DataType.antt =====
-- The names of data types.
use ygate_git.Base.{◌≡◌, refl, ap, Option, none, some, All}
use ygate_git.Base.Text.{Text, to_upper, trim_space, upper_name_idem}
use ygate_git.Middleware.Profile.Address.{switch_case}
use ygate_git.Middleware.Profile.Address.Modes.{switch_case-All}
use ygate_git.Middleware.Decoder.{
  data_type_cases, or_itself, normalize_data_type, count_of, register_count,
}

abbrev IsNormal : Text → Type 0
IsNormal t = normalize_data_type t ≡ t

cases-IsNormal : All (λ c. IsNormal c.1) data_type_cases
unfolding normalize_data_type
cases-IsNormal = (refl, (refl, (refl, (refl, (refl, (refl, tt))))))

IsNormal-name :
    (name : Text) (o : Option Text)
    → to_upper (trim_space name) ≡ name
    → switch_case name data_type_cases ≡ o
    → IsNormal (or_itself name o)
IsNormal-name name (some t) same e =
    switch_case-All IsNormal name t data_type_cases cases-IsNormal e
IsNormal-name name none same e = unfold normalize_data_type in rw (same, e)

normalize_lem :
    (dt : Text)
    → normalize_data_type dt
      ≡ or_itself
          (to_upper (trim_space dt))
          (switch_case (to_upper (trim_space dt)) data_type_cases)
unfolding normalize_data_type
normalize_lem dt = refl

-- The normalized name of a data type is its own normalized name, whether the package knows the type
-- or not.
pub normalize_data_type_idem :
    (dt : Text) → normalize_data_type (normalize_data_type dt) ≡ normalize_data_type dt
normalize_data_type_idem dt = rw (normalize_lem dt) (
    IsNormal-name (to_upper (trim_space dt))
      (switch_case (to_upper (trim_space dt)) data_type_cases) (upper_name_idem dt) refl)

-- The number of registers does not depend on whether the name has been normalized.
pub register_count-normalize :
    (dt : Text) → register_count (normalize_data_type dt) ≡ register_count dt
unfolding register_count
register_count-normalize dt = ap count_of (normalize_data_type_idem dt)
