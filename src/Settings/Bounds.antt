-- ===== src/Settings/Bounds.antt =====
-- The numbers of a configuration that was loaded, in their bounds.
use realtime_chat.Common.{
  ℕ, ◌≤◌, String, ◌≡◌, refl, ap, inl, inr, Option, none, some, List, [], ◌∷◌, arith, Option-cases,
  Bytes, ℤ,
}
use realtime_chat.Errors.{Result, ok, err}
use realtime_chat.Validation.{◌>>=◌}
use realtime_chat.Environment.{Env, whole_uint64, parse_uint, parse_int64, parse_flag, or_else}
use realtime_chat.Settings.{
  put, Config, default_config, validate, Setting, a_text, a_flag, a_uint, an_int64, a_ratio,
  assign_setting, settings, assign_all, load_from_env,
}
use realtime_chat.Settings.Checks.{IsSound, validate-IsSound}

-- The ports are 16-bit numbers other than zero, and the pool has 1 to 512 connections.
abbrev pub IsBounded : Config → Type 0
IsBounded cfg =
    ((1 ≤ cfg.chat_port) × (cfg.chat_port ≤ 65535))
    × (((1 ≤ cfg.db_port) × (cfg.db_port ≤ 65535))
        × ((1 ≤ cfg.db_pool_size) × (cfg.db_pool_size ≤ 512)))

abbrev Keeps : {A : Type 0} → (A → Config → Config) → Type 0
Keeps {A} assign = (v : A) (cfg : Config) → IsBounded cfg → IsBounded (assign v cfg)

abbrev KeepsBounds : Setting → Type 0
KeepsBounds (a_text name old assign) = Keeps assign
KeepsBounds (a_flag name old assign) = Keeps assign
KeepsBounds (a_uint name min max old assign) =
    (cfg : Config)
    → IsBounded cfg
    → ((min ≤ old cfg) × (old cfg ≤ max)) × ((v : ℕ) → min ≤ v → v ≤ max → IsBounded (assign v cfg))
KeepsBounds (an_int64 name min old assign) = Keeps assign
KeepsBounds a_ratio = Unit

abbrev AllKeep : List Setting → Type 0
AllKeep [] = Unit
AllKeep (s ∷ ss) = KeepsBounds s × AllKeep ss

settings-AllKeep : AllKeep settings
unfolding settings
settings-AllKeep = (
  λ cfg b. (ground arith, λ v low high. ground arith),
  (
    (λ v cfg b. b),
    (
      λ cfg b. (ground arith, λ v low high. ground arith),
      (
        (λ v cfg b. b),
        (
          (λ v cfg b. b),
          (
            (λ v cfg b. b),
            (
              λ cfg b. (ground arith, λ v low high. ground arith),
              (
                (λ v cfg b. b),
                (
                  (λ v cfg b. b),
                  (
                    (λ v cfg b. b),
                    (
                      (λ v cfg b. b),
                      (
                        (λ v cfg b. b),
                        (
                          (λ v cfg b. b),
                          (
                            (λ v cfg b. b),
                            (
                              (λ v cfg b. b),
                              (
                                (λ v cfg b. b),
                                (
                                  (λ v cfg b. b),
                                  (
                                    (λ v cfg b. b),
                                    (
                                      (λ v cfg b. b),
                                      (
                                        (λ v cfg b. b),
                                        (
                                          (λ v cfg b. b),
                                          (
                                            (λ v cfg b. b),
                                            (
                                              (λ v cfg b. b),
                                              (
                                                (λ v cfg b. b),
                                                (
                                                  (λ v cfg b. b),
                                                  (
                                                    (λ v cfg b. b),
                                                    (
                                                      (λ v cfg b. b),
                                                      (
                                                        (λ v cfg b. b),
                                                        (
                                                          (λ v cfg b. b),
                                                          (
                                                            (λ v cfg b. b),
                                                            (
                                                            (λ v cfg b. b),
                                                            (
                                                            (λ v cfg b. b),
                                                            (
                                                            (λ v cfg b. b),
                                                            (
                                                            (λ v cfg b. b),
                                                            (
                                                            tt,
                                                            (
                                                            (λ v cfg b. b),
                                                            (
                                                            (λ v cfg b. b),
                                                            (
                                                            (λ v cfg b. b),
                                                            ((λ v cfg b. b), ((λ v cfg b. b), tt)),
                                                            ),
                                                            ),
                                                            ),
                                                            ),
                                                            ),
                                                            ),
                                                            ),
                                                            ),
                                                          ),
                                                        ),
                                                      ),
                                                    ),
                                                  ),
                                                ),
                                              ),
                                            ),
                                          ),
                                        ),
                                      ),
                                    ),
                                  ),
                                ),
                              ),
                            ),
                          ),
                        ),
                      ),
                    ),
                  ),
                ),
              ),
            ),
          ),
        ),
      ),
    ),
  ),
)

parse_uint-in_range :
    (name : String) (fallback min max : ℕ) (raw : Option Bytes) (n : ℕ)
    → min ≤ fallback
    → fallback ≤ max
    → parse_uint name fallback min max raw ≡ ok n
    → (min ≤ n) × (n ≤ max)
unfolding parse_uint
parse_uint-in_range name fallback min max none n l h e = ground arith
parse_uint-in_range name fallback min max (some []) n l h e = ground arith
parse_uint-in_range name fallback min max (some (c ∷ raw)) n l h e =
    elim (Option-cases (whole_uint64 (c ∷ raw))) [
      | inl w ↦ ground arith
      | inr (k, w) ↦ ground arith
    ]

abbrev IsFine : Result Config → Type 0
IsFine (ok cfg) = IsBounded cfg
IsFine (err e) = Unit

assign_uint-IsFine :
    (min max : ℕ) (assign : ℕ → Config → Config) (cfg : Config) (r : Result ℕ)
    → ((n : ℕ) → r ≡ ok n → (min ≤ n) × (n ≤ max))
    → ((v : ℕ) → min ≤ v → v ≤ max → IsBounded (assign v cfg))
    → IsFine (put r assign cfg)
assign_uint-IsFine min max assign cfg (ok n) f k = k n (f n refl).0 (f n refl).1
assign_uint-IsFine min max assign cfg (err e) f k = tt

assign_int64-IsFine :
    (assign : ℤ → Config → Config) (cfg : Config) (r : Result ℤ)
    → Keeps assign
    → IsBounded cfg
    → IsFine (put r assign cfg)
assign_int64-IsFine assign cfg (ok z) k b = k z cfg b
assign_int64-IsFine assign cfg (err e) k b = tt

assign_ratio-IsFine :
    (ratio : Result (Unit {0})) (cfg : Config) → IsBounded cfg → IsFine (ratio >>= λ u. ok cfg)
assign_ratio-IsFine (ok u) cfg b = b
assign_ratio-IsFine (err e) cfg b = tt

assign_setting-IsFine :
    (env : Env) (ratio : Result (Unit {0})) (s : Setting) (cfg : Config)
    → KeepsBounds s
    → IsBounded cfg
    → IsFine (assign_setting env ratio s cfg)
unfolding assign_setting
assign_setting-IsFine env ratio (a_text name old assign) cfg k b =
    k (or_else (old cfg) (env name)) cfg b
assign_setting-IsFine env ratio (a_flag name old assign) cfg k b =
    k (parse_flag (old cfg) (env name)) cfg b
assign_setting-IsFine env ratio (a_uint name min max old assign) cfg k b =
    assign_uint-IsFine min max assign cfg (parse_uint name (old cfg) min max (env name))
      (λ n e. parse_uint-in_range name (old cfg) min max (env name) n (k cfg b).0.0 (k cfg b).0.1 e)
      (k cfg b).1
assign_setting-IsFine env ratio (an_int64 name min old assign) cfg k b =
    assign_int64-IsFine assign cfg (parse_int64 name (old cfg) min (env name)) k b
assign_setting-IsFine env ratio a_ratio cfg k b = assign_ratio-IsFine ratio cfg b

assign_rest-IsFine :
    (env : Env) (ratio : Result (Unit {0})) (ss : List Setting) (r : Result Config)
    → ((cfg : Config) → IsBounded cfg → IsFine (assign_all env ratio ss cfg))
    → IsFine r
    → IsFine (r >>= assign_all env ratio ss)
assign_rest-IsFine env ratio ss (ok cfg) k f = k cfg f
assign_rest-IsFine env ratio ss (err e) k f = tt

assign_all-IsFine :
    (env : Env) (ratio : Result (Unit {0})) (ss : List Setting) (cfg : Config)
    → AllKeep ss
    → IsBounded cfg
    → IsFine (assign_all env ratio ss cfg)
unfolding assign_all
assign_all-IsFine env ratio [] cfg k b = b
assign_all-IsFine env ratio (s ∷ ss) cfg k b =
    assign_rest-IsFine env ratio ss (assign_setting env ratio s cfg)
      (λ c. assign_all-IsFine env ratio ss c k.1) (assign_setting-IsFine env ratio s cfg k.0 b)

passed :
    (u : Result (Unit {0})) (c cfg : Config) → (u >>= λ v. ok c) ≡ ok cfg → (c ≡ cfg) × (u ≡ ok tt)
passed (ok v) c cfg h = (ground arith, refl)
passed (err e) c cfg h = ground arith

validated :
    (r : Result Config) (cfg : Config)
    → (r >>= λ c. validate c >>= λ u. ok c) ≡ ok cfg
    → (r ≡ ok cfg) × (validate cfg ≡ ok tt)
validated (err e) cfg h = ground arith
validated (ok c) cfg h =
    let (same, valid) = passed (validate c) c cfg h in (ap ok same, rw same at valid)

-- A configuration with which the server starts is sound, with ports and a pool in their bounds,
-- whatever the environment holds.
pub load_from_env-IsSound :
    (env : Env) (ratio : Result (Unit {0})) (cfg : Config)
    → load_from_env env ratio ≡ ok cfg
    → IsSound cfg × IsBounded cfg
unfolding load_from_env default_config
load_from_env-IsSound env ratio cfg e =
    let (assigned, valid) = validated (assign_all env ratio settings default_config) cfg e in
    (
      validate-IsSound cfg valid,
      rw assigned at
          (assign_all-IsFine env ratio settings default_config settings-AllKeep (ground arith)),
    )
