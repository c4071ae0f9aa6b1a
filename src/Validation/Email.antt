-- ===== src/Validation/Email.antt =====
-- The email pattern, as the texts that it describes.
use realtime_chat.Common.{
  ◌≡◌, refl, ap, ◌∙◌, ◌↔◌, inl, inr, true, false, not, ◌&&◌, [], ◌∷◌, ◌++◌, arith, Bool-cases, ◌==◌,
  nat_eq, Bytes, bytes_eq,
}
use realtime_chat.Validation.{
  is_space, is_plain, is_empty, all_of, has_dot_then_more, match_domain, match_local, matches_email,
}

-- A local part, an at sign, a domain label, a dot and a top-level domain, each part nonempty and
-- free of white space and at signs.
pub record IsEmail (s : Bytes) : Type 0 where
  pub user : Bytes
  pub domain : Bytes
  pub tld : Bytes
  pub parts : s ≡ user ++ (b'@' ∷ (domain ++ (b'.' ∷ tld)))
  pub user_plain : all_of is_plain user ≡ true
  pub domain_plain : all_of is_plain domain ≡ true
  pub tld_plain : all_of is_plain tld ≡ true
  pub nonempty : (is_empty user ≡ false) × (is_empty domain ≡ false) × (is_empty tld ≡ false)

-- A plain text with a dot that has something behind it, split there.
dot_split :
    (s : Bytes)
    → all_of is_plain s ≡ true
    → has_dot_then_more s ≡ true
    → (a : Bytes) × (b : Bytes) × (s ≡ a ++ (b'.' ∷ b))
      × (all_of is_plain a ≡ true)
      × (all_of is_plain b ≡ true)
      × (is_empty b ≡ false)
unfolding has_dot_then_more
dot_split [] p h = absurd (ground arith)
dot_split (c ∷ s) p h = elim (Bool-cases (c == b'.' && not (is_empty s))) [
  | inl here ↦ ([], s, ground arith, refl, ground arith, ground arith)
  | inr later ↦
      let (a, b, e, pa, pb, nb) = dot_split s (ground arith) (ground arith) in
      (c ∷ a, b, ap (◌∷◌ c) e, ground arith, pb, nb)
]

local_split :
    (s : Bytes)
    → match_local s ≡ true
    → (a : Bytes) × (d : Bytes) × (s ≡ a ++ (b'@' ∷ d))
      × (all_of is_plain a ≡ true)
      × (match_domain d ≡ true)
unfolding match_local
local_split [] h = absurd (ground arith)
local_split (c ∷ s) h = elim (Bool-cases (c == b'@')) [
  | inl here ↦ ([], s, ground arith, refl, ground arith)
  | inr later ↦
      let (a, d, e, pa, md) = local_split s (ground arith) in
      (c ∷ a, d, ap (◌∷◌ c) e, ground arith, md)
]

domain_split :
    (s : Bytes)
    → match_domain s ≡ true
    → (a : Bytes) × (b : Bytes) × (s ≡ a ++ (b'.' ∷ b))
      × (all_of is_plain a ≡ true)
      × (all_of is_plain b ≡ true)
      × (is_empty a ≡ false)
      × (is_empty b ≡ false)
unfolding match_domain
domain_split [] h = absurd (ground arith)
domain_split (c ∷ s) h =
    let (a, b, e, pa, pb, nb) = dot_split s (ground arith) (ground arith) in
    (c ∷ a, b, ap (◌∷◌ c) e, ground arith, pb, refl, nb)

all_of-append : (s t : Bytes) → all_of is_plain (s ++ t) ≡ (all_of is_plain s && all_of is_plain t)
all_of-append [] t = refl
all_of-append (c ∷ s) t = ground (arith, all_of-append s t)

has_dot-append : (a b : Bytes) → is_empty b ≡ false → has_dot_then_more (a ++ (b'.' ∷ b)) ≡ true
unfolding has_dot_then_more
has_dot-append [] b h = ground arith
has_dot-append (c ∷ a) b h = ground (arith, has_dot-append a b h)

match_domain-append :
    (a b : Bytes)
    → all_of is_plain a ≡ true
    → all_of is_plain b ≡ true
    → is_empty a ≡ false
    → is_empty b ≡ false
    → match_domain (a ++ (b'.' ∷ b)) ≡ true
unfolding match_domain is_plain is_space
match_domain-append [] b pa pb na nb = absurd (ground arith)
match_domain-append (c ∷ a) b pa pb na nb =
    ground (arith, all_of-append a (b'.' ∷ b), has_dot-append a b nb)

match_local-append :
    (a d : Bytes)
    → all_of is_plain a ≡ true
    → match_domain d ≡ true
    → match_local (a ++ (b'@' ∷ d)) ≡ true
unfolding match_local is_plain
match_local-append [] d pa h = h
match_local-append (c ∷ a) d pa h = ground (arith, match_local-append a d)

email_of_parts :
    (user domain tld : Bytes)
    → all_of is_plain user ≡ true
    → is_empty user ≡ false
    → match_domain (domain ++ (b'.' ∷ tld)) ≡ true
    → matches_email (user ++ (b'@' ∷ (domain ++ (b'.' ∷ tld)))) ≡ true
unfolding matches_email
email_of_parts [] domain tld p n m = absurd (ground arith)
email_of_parts (c ∷ user) domain tld p n m =
    ground (arith, match_local-append user (domain ++ (b'.' ∷ tld)))

parts_of_IsEmail : (s : Bytes) → matches_email s ≡ true → IsEmail s
unfolding matches_email
parts_of_IsEmail [] h = absurd (ground arith)
parts_of_IsEmail (c ∷ s) h =
    let (user, d, e, user_plain, rest) = local_split s (ground arith) in
    let (domain, tld, e', domain_plain, tld_plain, nd, nt) = domain_split d rest in
    record {
      user = c ∷ user;
      domain = domain;
      tld = tld;
      parts = ap (◌∷◌ c) (e ∙ ap (λ t. user ++ (b'@' ∷ t)) e');
      user_plain = ground arith;
      domain_plain = domain_plain;
      tld_plain = tld_plain;
      nonempty = (refl, nd, nt);
    }

-- The pattern accepts exactly the texts of the form user@domain.tld.
pub matches_email_iff : (s : Bytes) → (matches_email s ≡ true) ↔ IsEmail s
matches_email_iff s = (
  parts_of_IsEmail s,
  λ e. rw e.parts (
      email_of_parts e.user e.domain e.tld e.user_plain e.nonempty.0
        (match_domain-append e.domain e.tld e.domain_plain e.tld_plain e.nonempty.1 e.nonempty.2)),
)
