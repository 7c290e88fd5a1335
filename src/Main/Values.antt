-- ===== src/Main/Values.antt =====
-- cmd/main.go: parseCSVValues reads back what is written with commas, and what it gives the Service
-- webhook.
use edgecdnx_controller.Common.{
  ℕ, ◌≡◌, refl, sym, ap, ◌∙◌, false, List, [], ◌∷◌, ◌++◌, Text, text_eq, All, arith,
}
use mathlib.Core.List.{reverse, reverse-cons, reverse-append}
use edgecdnx_controller.Strings.{split, trim_left, trim_space, is_space}
use edgecdnx_controller.Strings.Laws.{join, Lacks, split-join}
use edgecdnx_controller.Strings.{to_lower, trim_prefix, trim_suffix, has_suffix}
use edgecdnx_controller.Common.{Option, none, true, Bool, any, all, not, All-mono}
use edgecdnx_controller.Webhook.Admission.{is_none}
use edgecdnx_controller.Webhook.Service.{
  Ip, normalise_upstream_tlds, validate_upstream_configuration,
}
use edgecdnx_controller.Webhook.Service.Upstream.{is_none-validate_upstream_configuration}
use edgecdnx_controller.Main.{filled_parts, parse_csv_values}

-- A value: not empty, without commas, and without white space around it.
abbrev pub IsValue : Text → Type 0
IsValue [] = ⊥
IsValue (c ∷ v) = (is_space c ≡ false) × Lacks b',' (c ∷ v) × (trim_space (c ∷ v) ≡ c ∷ v)

trim_left-head : (c : ℕ) (s : Text) → is_space c ≡ false → trim_left (c ∷ s) ≡ c ∷ s
unfolding trim_left
trim_left-head c s h = ground (arith, h)

trim_left-last :
    (s : Text) (c : ℕ) → is_space c ≡ false → trim_left (s ++ c ∷ []) ≡ trim_left s ++ c ∷ []
unfolding trim_left
trim_left-last [] c h = trim_left-head c [] h
trim_left-last (d ∷ s) c h = ground (arith, trim_left-last s c h)

trim_space-head :
    (c : ℕ) (s : Text)
    → is_space c ≡ false
    → trim_space (c ∷ s) ≡ c ∷ reverse (trim_left (reverse s))
unfolding trim_space
trim_space-head c s h =
    ap (λ x. reverse (trim_left (reverse x))) (trim_left-head c s h)
    ∙ ap (λ x. reverse (trim_left x)) (reverse-cons c s)
    ∙ ap reverse (trim_left-last (reverse s) c h)
    ∙ reverse-append (trim_left (reverse s)) (c ∷ [])

Lacks-IsValue : (v : Text) → IsValue v → Lacks b',' v
Lacks-IsValue [] h = elim h [ ]
Lacks-IsValue (c ∷ v) (h, l, t) = l

All-Lacks : (vs : List Text) → All IsValue vs → All (Lacks b',') vs
All-Lacks [] a = tt
All-Lacks (v ∷ vs) (h, a) = (Lacks-IsValue v h, All-Lacks vs a)

filled_parts-id : (vs : List Text) → All IsValue vs → filled_parts vs ≡ vs
unfolding filled_parts text_eq
filled_parts-id [] a = refl
filled_parts-id ([] ∷ vs) (h, a) = elim h [ ]
filled_parts-id ((c ∷ v) ∷ vs) ((h, l, t), a) = rw t (rw (filled_parts-id vs a) refl)

join-head : (c : ℕ) (v : Text) (vs : List Text) → (s : Text) × (join b',' ((c ∷ v) ∷ vs) ≡ c ∷ s)
join-head c v [] = (v, refl)
join-head c v (w ∷ vs) = (v ++ b',' ∷ join b',' (w ∷ vs), refl)

parse_csv_values-head :
    (c : ℕ) (s : Text)
    → is_space c ≡ false
    → parse_csv_values (c ∷ s) ≡ filled_parts (split b',' (c ∷ s))
unfolding parse_csv_values text_eq
parse_csv_values-head c s h = rw (trim_space-head c s h) refl

-- Values that are not empty and hold no comma and no white space around them are read back, in
-- their order, from the text that has them with commas between.
pub parse_csv_values-join : (vs : List Text) → All IsValue vs → parse_csv_values (join b',' vs) ≡ vs
unfolding parse_csv_values trim_space trim_left text_eq
parse_csv_values-join [] a = refl
parse_csv_values-join ([] ∷ vs) (h, a) = elim h [ ]
parse_csv_values-join ((c ∷ v) ∷ vs) (h, a) =
    let (s, e) = join-head c v vs in
    ap parse_csv_values e
    ∙ parse_csv_values-head c s h.0
    ∙ ap (λ x. filled_parts (split b',' x)) (sym e)
    ∙ ap filled_parts (split-join b',' (c ∷ v) vs (All-Lacks ((c ∷ v) ∷ vs) (h, a)))
    ∙ filled_parts-id ((c ∷ v) ∷ vs) (h, a)

-- A domain as the flag is to give it: in lower case, without a dot before it.
abbrev pub IsDomain : Text → Type 0
IsDomain v = IsValue v × (to_lower v ≡ v) × (trim_prefix b'.' v ≡ v)

IsValue-trim_space : (v : Text) → IsValue v → (trim_space v ≡ v) × (text_eq v [] ≡ false)
unfolding text_eq
IsValue-trim_space [] h = elim h [ ]
IsValue-trim_space (c ∷ v) (h, l, t) = (t, refl)

normalise_upstream_tlds-id : (vs : List Text) → All IsDomain vs → normalise_upstream_tlds vs ≡ vs
unfolding normalise_upstream_tlds
normalise_upstream_tlds-id [] a = refl
normalise_upstream_tlds-id (v ∷ vs) ((h, lower, bare), a) =
    let (t, filled) = IsValue-trim_space v h in
    let kept : trim_prefix b'.' (trim_space (to_lower v)) ≡ v =
      ap (λ x. trim_prefix b'.' (trim_space x)) lower ∙ ap (trim_prefix b'.') t ∙ bare in
    ground (arith, kept, filled, normalise_upstream_tlds-id vs a)

all-any : (p : Text → Bool) (vs : List Text) → any p vs ≡ true → all (λ v. not (p v)) vs ≡ false
all-any p [] h = ground (arith, h)
all-any p (v ∷ vs) h = ground (arith, h, all-any p vs)

-- Domains, in lower case and without dots before them, that --blocked-upstream-tlds gives with commas
-- between are blocked: an upstream that reads as no address and whose host name, in lower case and
-- without a dot at its end, ends in a dot and one of them does not pass the Service webhook.
pub parse_csv_values-blocks :
    (parse_ip : Text → Option Ip) (vs : List Text) (upstream : Text)
    → All IsDomain vs
    → parse_ip (trim_space upstream) ≡ none
    → any (λ v. has_suffix (trim_suffix b'.' (to_lower (trim_space upstream))) (b'.' ∷ v)) vs ≡ true
    → is_none (
        validate_upstream_configuration parse_ip
          (normalise_upstream_tlds (parse_csv_values (join b',' vs)))
          upstream)
      ≡ false
parse_csv_values-blocks parse_ip vs upstream a parsed ends =
    let values = parse_csv_values-join vs (All-mono vs (λ v h. h.0) a) in
    ap (λ x. is_none (validate_upstream_configuration parse_ip x upstream))
      (ap normalise_upstream_tlds values ∙ normalise_upstream_tlds-id vs a)
    ∙ is_none-validate_upstream_configuration parse_ip vs upstream
    ∙ ground (
      arith,
      parsed,
      all-any (λ v. has_suffix (trim_suffix b'.' (to_lower (trim_space upstream))) (b'.' ∷ v)) vs
          ends,
    )
