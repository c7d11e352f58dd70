-- ===== src/RealIp/Walk.antt =====
-- The two loops over the forwarded addresses as one walk, and what it finds.
use mathlib.Core.List.{reverse, reverse-append, reverse-reverse, append_assoc, append-nil}
use miniclass.Base.{
  ◌≡◌, refl, sym, ap, ◌∙◌, subst, true, false, Option, none, some, List, [], ◌∷◌, ◌++◌, All,
  Bool-cases, Option-cases, inl, inr,
}
use miniclass.Base.Text.{Text}
use miniclass.RealIp.{
  Netip, Progress, stopped, walked, split, parse_forwarded_ip, address_in_prefixes, trusts,
  walk_entries, walk_values, rightmost_untrusted_forwarded_ip,
}

-- All entries of the header, from left to right.
abbrev pub all_entries : List Text → List Text
all_entries [] = []
all_entries (value ∷ values) = split value ++ all_entries values

-- The same from right to left, for the values from right to left.
abbrev backwards : List Text → List Text
backwards [] = []
backwards (value ∷ values) = reverse (split value) ++ backwards values

backwards-append :
    (vs : List Text) (v : Text) → backwards (vs ++ v ∷ []) ≡ backwards vs ++ reverse (split v)
backwards-append [] v = append-nil (reverse (split v))
backwards-append (w ∷ vs) v =
    rw (backwards-append vs v)
      (sym (append_assoc (reverse (split w)) (backwards vs) (reverse (split v))))

backwards-reverse : (values : List Text) → backwards (reverse values) ≡ reverse (all_entries values)
backwards-reverse [] = refl
backwards-reverse (v ∷ vs) =
    ap backwards (reverse-append (v ∷ []) vs)
    ∙ backwards-append (reverse vs) v
    ∙ ap (λ l. l ++ reverse (split v)) (backwards-reverse vs)
    ∙ sym (reverse-append (split v) (all_entries vs))

module _ (net : Netip) (prefixes : List net.Prefix) where
  abbrev pub after : Progress net.Addr → Progress net.Addr → Progress net.Addr
  after (stopped r) rest = stopped r
  after walked rest = rest

  pub walk_entries-append :
      (xs ys : List Text)
      → walk_entries net prefixes (xs ++ ys)
        ≡ after (walk_entries net prefixes xs) (walk_entries net prefixes ys)
  unfolding walk_entries
  walk_entries-append [] ys = refl
  walk_entries-append (x ∷ xs) ys = elim (Option-cases (parse_forwarded_ip net x)) [
    | inl e ↦ rw (e, walk_entries)
    | inr (a, e) ↦ elim (Bool-cases (address_in_prefixes net prefixes a)) [
      | inl t ↦ rw (e, t, walk_entries) (walk_entries-append xs ys)
      | inr f ↦ rw (e, f, walk_entries)
    ]
  ]

  abbrev pub outcome : Progress net.Addr → Option net.Addr
  outcome (stopped r) = r
  outcome walked = none

  outcome-after :
      (p q : Progress net.Addr) (o : Option net.Addr)
      → o ≡ outcome q
      → elim p [ stopped r ↦ r | walked ↦ o ] ≡ outcome (after p q)
  outcome-after (stopped r) q o h = refl
  outcome-after walked q o h = h

  walk_values-backwards :
      (vs : List Text)
      → walk_values net prefixes vs ≡ outcome (walk_entries net prefixes (backwards vs))
  unfolding walk_values walk_entries
  walk_values-backwards [] = refl
  walk_values-backwards (v ∷ vs) =
      outcome-after (walk_entries net prefixes (reverse (split v)))
        (walk_entries net prefixes (backwards vs)) (walk_values net prefixes vs)
        (walk_values-backwards vs)
      ∙ ap outcome (sym (walk_entries-append (reverse (split v)) (backwards vs)))

  -- The two loops are one walk over all entries from right to left.
  pub rightmost-walk_entries :
      (values : List Text)
      → rightmost_untrusted_forwarded_ip net prefixes values
        ≡ outcome (walk_entries net prefixes (reverse (all_entries values)))
  unfolding rightmost_untrusted_forwarded_ip
  rightmost-walk_entries values =
      walk_values-backwards (reverse values)
      ∙ ap (λ l. outcome (walk_entries net prefixes l)) (backwards-reverse values)

  abbrev pub IsTrustedEntry : Text → Type 0
  IsTrustedEntry e = trusts net prefixes (parse_forwarded_ip net e) ≡ true

  -- The chosen address, with the entry it stands in and the entries to its right.
  pub record IsRightmost (entries : List Text) (addr : net.Addr) : Type 0 where
    pub before : List Text
    pub entry : Text
    pub behind : List Text
    pub position : entries ≡ before ++ (entry ∷ behind)
    pub parsed : parse_forwarded_ip net entry ≡ some addr
    pub untrusted : address_in_prefixes net prefixes addr ≡ false
    pub trusted : All IsTrustedEntry behind

  -- The same, for the entries from right to left.
  record IsFirst (entries : List Text) (addr : net.Addr) : Type 0 where
    passed : List Text
    entry : Text
    rest : List Text
    position : entries ≡ passed ++ (entry ∷ rest)
    parsed : parse_forwarded_ip net entry ≡ some addr
    untrusted : address_in_prefixes net prefixes addr ≡ false
    trusted : All IsTrustedEntry passed

  walk_entries-IsFirst :
      (es : List Text) (addr : net.Addr)
      → outcome (walk_entries net prefixes es) ≡ some addr
      → IsFirst es addr
  unfolding walk_entries
  walk_entries-IsFirst [] addr h = cc
  walk_entries-IsFirst (e ∷ es) addr h = elim (Option-cases (parse_forwarded_ip net e)) [
    | inl none_parsed ↦ let h' = rw (none_parsed, walk_entries) at h in cc
    | inr (a, parsed) ↦ elim (Bool-cases (address_in_prefixes net prefixes a)) [
      | inl inside ↦
          let found = walk_entries-IsFirst es addr (rw (parsed, inside, walk_entries) at h) in
          record {
            passed = e ∷ found.passed;
            entry = found.entry;
            rest = found.rest;
            position = ap (λ l. e ∷ l) found.position;
            parsed = found.parsed;
            untrusted = found.untrusted;
            trusted = (rw parsed inside, found.trusted);
          }
      | inr outside ↦
          let same : some a ≡ some addr = rw (parsed, outside, walk_entries) at h in
          record {
            passed = [];
            entry = e;
            rest = es;
            position = refl;
            parsed = parsed ∙ same;
            untrusted = cc;
            trusted = tt;
          }
    ]
  ]

  All-append :
      (xs ys : List Text)
      → All IsTrustedEntry xs
      → All IsTrustedEntry ys
      → All IsTrustedEntry (xs ++ ys)
  All-append [] ys h k = k
  All-append (x ∷ xs) ys h k = (h.0, All-append xs ys h.1 k)

  All-reverse : (xs : List Text) → All IsTrustedEntry xs → All IsTrustedEntry (reverse xs)
  All-reverse [] h = tt
  All-reverse (x ∷ xs) h =
      subst (All IsTrustedEntry) (sym (reverse-append (x ∷ []) xs))
        (All-append (reverse xs) (x ∷ []) (All-reverse xs h.1) (h.0, tt))

  -- The chosen address is the rightmost that no trusted network holds, over all header values: it
  -- stands in an entry behind which every entry is an address of a trusted proxy.
  pub rightmost_untrusted_forwarded_ip-IsRightmost :
      (values : List Text) (addr : net.Addr)
      → rightmost_untrusted_forwarded_ip net prefixes values ≡ some addr
      → IsRightmost (all_entries values) addr
  rightmost_untrusted_forwarded_ip-IsRightmost values addr h =
      let found =
        walk_entries-IsFirst (reverse (all_entries values)) addr
          (sym (rightmost-walk_entries values) ∙ h) in
      record {
        before = reverse found.rest;
        entry = found.entry;
        behind = reverse found.passed;
        position =
            sym (reverse-reverse (all_entries values))
            ∙ ap reverse found.position
            ∙ reverse-append found.passed (found.entry ∷ found.rest)
            ∙ ap (λ l. l ++ reverse found.passed) (reverse-append (found.entry ∷ []) found.rest)
            ∙ append_assoc (reverse found.rest) (found.entry ∷ []) (reverse found.passed);
        parsed = found.parsed;
        untrusted = found.untrusted;
        trusted = All-reverse found.passed found.trusted;
      }
