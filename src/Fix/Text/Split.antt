-- ===== src/Fix/Text/Split.antt =====
-- `split` takes apart what `join` has put together, and `strip` and `replace` on such texts, for
-- src/protocols/fix_handler.py.
use algo_engine.Prelude.{
  ℕ, ◌≡◌, ◌≢◌, refl, ap, ◌∙◌, true, false, List, [], ◌∷◌, ◌++◌, arith, if◌then◌else◌, ◌==◌, All,
  append_assoc,
}
use algo_engine.Fix.Text.{
  Text, is_space, lstrip, rstrip, keep, strip, replace, split, join, contains_char, split_once,
}

-- A text without a character.
abbrev pub Lacks : ℕ → Text → Type 0
Lacks c t = All (λ x. x ≢ c) t

-- Every piece followed by the separator.
abbrev pub lines : ℕ → List Text → Text
lines sep [] = []
lines sep (p ∷ ps) = p ++ (sep ∷ lines sep ps)

pub join-snoc :
    (sep : ℕ) (p : Text) (ps : List Text) → join sep (p ∷ ps) ++ (sep ∷ []) ≡ lines sep (p ∷ ps)
join-snoc sep p [] = refl
join-snoc sep p (q ∷ ps) =
    append_assoc p (sep ∷ join sep (q ∷ ps)) (sep ∷ [])
    ∙ ap (λ u. p ++ (sep ∷ u)) (join-snoc sep q ps)

split_last : (sep : ℕ) (p : Text) → Lacks sep p → split sep p ≡ p ∷ []
split_last sep [] h = refl
split_last sep (c ∷ p) (d, ds) = ground (arith, split_last sep p ds)

split-append : (sep : ℕ) (p t : Text) → Lacks sep p → split sep (p ++ (sep ∷ t)) ≡ p ∷ split sep t
split-append sep [] t h = ground arith
split-append sep (c ∷ p) t (d, ds) = ground (arith, split-append sep p t ds)

pub split-join :
    (sep : ℕ) (p : Text) (ps : List Text)
    → All (Lacks sep) (p ∷ ps)
    → split sep (join sep (p ∷ ps)) ≡ p ∷ ps
split-join sep p [] (h, _) = split_last sep p h
split-join sep p (q ∷ ps) (h, hs) =
    split-append sep p (join sep (q ∷ ps)) h ∙ ap (λ u. p ∷ u) (split-join sep q ps hs)

pub replace_clean : (old new : ℕ) (t : Text) → Lacks old t → replace old new t ≡ t
replace_clean old new [] h = refl
replace_clean old new (c ∷ t) (d, ds) = ground (arith, replace_clean old new t ds)

pub replace-append :
    (old new : ℕ) (s t : Text) → replace old new (s ++ t) ≡ replace old new s ++ replace old new t
replace-append old new [] t = refl
replace-append old new (c ∷ s) t =
    ap (λ u. (if c == old then new else c) ∷ u) (replace-append old new s t)

pub replace-lines :
    (old new : ℕ) (ps : List Text)
    → All (Lacks old) ps
    → replace old new (lines old ps) ≡ lines new ps
replace-lines old new [] h = refl
replace-lines old new (p ∷ ps) (h, hs) =
    replace-append old new p (old ∷ lines old ps)
    ∙ ap (λ u. u ++ replace old new (old ∷ lines old ps)) (replace_clean old new p h)
    ∙ ap (λ u. p ++ u) (replace_sep (lines old ps) (replace-lines old new ps hs))
  where
    replace_sep :
        (t : Text) {u : Text} → replace old new t ≡ u → replace old new (old ∷ t) ≡ new ∷ u
    replace_sep t e = ground arith

-- `strip` takes one space off the end of a text that begins and ends with other characters.
rstrip_end : (t : Text) (c : ℕ) → is_space c ≡ false → rstrip (t ++ (c ∷ b' ' ∷ [])) ≡ t ++ (c ∷ [])
rstrip_end [] c h = ground arith
rstrip_end (x ∷ t) c h = rw (rstrip_end t c h) (keep_more t)
  where
    keep_more : (t : Text) → keep x (t ++ (c ∷ [])) ≡ x ∷ (t ++ (c ∷ []))
    keep_more [] = refl
    keep_more (y ∷ t) = refl

lstrip_kept : (b : ℕ) (t : Text) → is_space b ≡ false → lstrip (b ∷ t) ≡ b ∷ t
lstrip_kept b t h = rw h

pub strip_end :
    (b : ℕ) (t : Text) (c : ℕ)
    → is_space b ≡ false
    → is_space c ≡ false
    → strip (b ∷ (t ++ (c ∷ b' ' ∷ []))) ≡ b ∷ (t ++ (c ∷ []))
unfolding strip
strip_end b t c hb hc =
    ap rstrip (lstrip_kept b (t ++ (c ∷ b' ' ∷ [])) hb) ∙ rstrip_end (b ∷ t) c hc

pub split_once-append :
    (sep : ℕ) (a b : Text) → Lacks sep a → split_once sep (a ++ (sep ∷ b)) ≡ (a, b)
split_once-append sep [] b h = ground arith
split_once-append sep (c ∷ a) b (d, ds) = ground (arith, split_once-append sep a b ds)

pub contains_char-append : (c : ℕ) (a b : Text) → contains_char c (a ++ (c ∷ b)) ≡ true
contains_char-append c [] b = ground arith
contains_char-append c (x ∷ a) b = ground (arith, contains_char-append c a b)
