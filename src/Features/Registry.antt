-- ===== src/Features/Registry.antt =====
-- The registry of features: names, the environment, and the names of what is on.
use realtime_chat.Common.{
  ◌≡◌, refl, ap, ◌≢◌, ◌↔◌, ◌⊎◌, Bool, true, some, List, [], ◌∷◌, map, arith, Bytes, codes,
  bytes_beq_iff,
}
use realtime_chat.Errors.{ok}
use realtime_chat.Validation.{to_lower}
use realtime_chat.Features.{
  Feature, reactions, feature_index, descriptor, features, registry, name_of, find_feature,
  parse_feature, FeatureFlags, store, new_flags, parse_bool, store_defaults, is_enabled, set,
  load_each, load_from_env, require,
}

feature_index-injective : (f g : Feature) → feature_index f ≡ feature_index g → f ≡ g
feature_index-injective reactions reactions h = refl
feature_index-injective _ _ h = ground arith

-- A flag that is set reads as what was set; every other flag is as before, and the call returns
-- the value before.
pub is_enabled-set :
    (f g : Feature) (enabled : Bool) (flags : FeatureFlags)
    → (is_enabled f (set f enabled flags).0 ≡ enabled)
      × (¬ (f ≡ g) → is_enabled g (set f enabled flags).0 ≡ is_enabled g flags)
      × ((set f enabled flags).1 ≡ is_enabled f flags)
unfolding is_enabled set store
is_enabled-set f g enabled flags = ground (arith, feature_index-injective f g)

is_enabled-load_each :
    (env : Bytes → Bytes) (f : Feature) (flags : FeatureFlags)
    → is_enabled f (load_from_env env flags)
      ≡ parse_bool (env (descriptor f).env_var) (descriptor f).default_enabled
unfolding load_from_env load_each registry set store is_enabled descriptor parse_bool
is_enabled-load_each env reactions flags = refl
is_enabled-load_each env _ flags = refl

parse_bool_iff :
    (raw : Bytes) (fallback : Bool)
    → (raw ≡ [] → parse_bool raw fallback ≡ fallback)
      × (raw ≢ []
          → (parse_bool raw fallback ≡ true) ↔ (
              (to_lower raw ≡ codes "1")
              ⊎ ((to_lower raw ≡ codes "true")
                  ⊎ ((to_lower raw ≡ codes "yes") ⊎ (to_lower raw ≡ codes "on")))))
unfolding parse_bool
parse_bool_iff [] fallback = (λ e. refl, λ ne. absurd (ne refl))
parse_bool_iff (c ∷ s) fallback =
    let low = to_lower (c ∷ s) in
    let one = bytes_beq_iff low (codes "1") in
    let yes = bytes_beq_iff low (codes "true") in
    (
      λ e. ground arith,
      λ ne.
          ground (arith, one, yes, bytes_beq_iff low (codes "yes"), bytes_beq_iff low (codes "on")),
    )

-- After the environment is read, every flag is what its variable says, whatever it was before: where
-- the variable is empty the flag is the registry's default, and otherwise the flag is on exactly if
-- the lower-cased text of the variable is 1, true, yes or on.
pub is_enabled-load_from_env :
    (env : Bytes → Bytes) (f : Feature) (flags : FeatureFlags)
    → (env (descriptor f).env_var ≡ []
        → is_enabled f (load_from_env env flags) ≡ (descriptor f).default_enabled)
      × (env (descriptor f).env_var ≢ []
          → (is_enabled f (load_from_env env flags) ≡ true) ↔ (
              (to_lower (env (descriptor f).env_var) ≡ codes "1")
              ⊎ ((to_lower (env (descriptor f).env_var) ≡ codes "true")
                  ⊎ ((to_lower (env (descriptor f).env_var) ≡ codes "yes")
                      ⊎ (to_lower (env (descriptor f).env_var) ≡ codes "on")))))
is_enabled-load_from_env env f flags =
    rw (is_enabled-load_each env f flags)
      (parse_bool_iff (env (descriptor f).env_var) (descriptor f).default_enabled)

feature-descriptor : (f : Feature) → (descriptor f).feature ≡ f
unfolding descriptor
feature-descriptor reactions = refl
feature-descriptor _ = refl

find_feature_sound :
    (name : Bytes) (f : Feature) (gs : List Feature)
    → find_feature name (map descriptor gs) ≡ some f
    → codes (name_of f) ≡ name
unfolding find_feature name_of
find_feature_sound name f [] h = ground arith
find_feature_sound name f (g ∷ gs) h = ground (
  arith,
  find_feature_sound name f gs,
  feature-descriptor g,
  bytes_beq_iff (codes (descriptor g).name) name,
  ap (λ k. codes (descriptor k).name),
)

parse_feature-name_of : (f : Feature) → parse_feature (codes (name_of f)) ≡ some f
unfolding parse_feature find_feature registry descriptor name_of
parse_feature-name_of reactions = refl
parse_feature-name_of _ = refl

-- A text parses to a feature exactly when it is the name of that feature.
pub parse_feature_iff :
    (name : Bytes) (f : Feature) → (parse_feature name ≡ some f) ↔ (codes (name_of f) ≡ name)
unfolding parse_feature registry
parse_feature_iff name f =
    (find_feature_sound name f features, λ e. rw e at (parse_feature-name_of f))

is_enabled-new_flags : (f : Feature) (fs : FeatureFlags) → is_enabled f (new_flags fs) ≡ true
unfolding is_enabled new_flags store store_defaults registry descriptor
is_enabled-new_flags reactions fs = refl
is_enabled-new_flags _ fs = refl

-- A fresh store lets every feature pass, and after `set` a feature passes exactly when it was
-- switched on.
pub require-set :
    (f : Feature) (enabled : Bool) (fs : FeatureFlags)
    → (require f (new_flags fs) ≡ ok tt)
      × ((require f (set f enabled fs).0 ≡ ok tt) ↔ (enabled ≡ true))
unfolding require
require-set f enabled fs = ground (arith, is_enabled-new_flags f fs, is_enabled-set f f enabled fs)
