-- ===== src/RealIp/Forgery.antt =====
-- What a client can reach with the headers that it sends itself.
use mathlib.Core.List.{reverse, reverse-append}
use miniclass.Base.{
  ◌==◌, ◌≡◌, refl, ap, ◌∙◌, Option, none, some, List, [], ◌∷◌, ◌++◌, Bool-cases, inl, inr,
}
use miniclass.Base.Text.{Text}
use miniclass.RealIp.{
  Netip, Progress, stopped, walked, split, split_from, walk_entries, walk_values,
  rightmost_untrusted_forwarded_ip,
}
use miniclass.RealIp.Walk.{walk_entries-append, after}

split_from-append :
    (part f h : Text) → split_from part (f ++ (b',' ∷ h)) ≡ split_from part f ++ split h
unfolding split
split_from-append part [] h = refl
split_from-append part (c ∷ f) h = elim (Bool-cases (c == b',')) [
  | inl comma ↦ rw (comma, split_from) (ap (λ l. reverse part ∷ l) (split_from-append [] f h))
  | inr other ↦ rw (other, split_from) (split_from-append (c ∷ part) f h)
]

module _ (net : Netip) (prefixes : List net.Prefix) where
  abbrev of_walk : Progress net.Addr → Option net.Addr → Option net.Addr
  of_walk p rest = elim p [ stopped r ↦ r | walked ↦ rest ]

  of_walk-after :
      (p q : Progress net.Addr) (rest : Option net.Addr) (addr : net.Addr)
      → of_walk p none ≡ some addr
      → of_walk (after net prefixes p q) rest ≡ some addr
  of_walk-after (stopped r) q rest addr h = h
  of_walk-after walked q rest addr h = cc

  -- Where the header that the proxies wrote holds an address outside the trusted networks, that
  -- address is chosen, whatever the client wrote before it, in the same value or in earlier ones.
  pub rightmost_untrusted_forwarded_ip-forged :
      (values : List Text) (forged honest : Text) (addr : net.Addr)
      → rightmost_untrusted_forwarded_ip net prefixes (honest ∷ []) ≡ some addr
      → rightmost_untrusted_forwarded_ip net prefixes (values ++ (forged ++ (b',' ∷ honest)) ∷ [])
        ≡ some addr
  unfolding rightmost_untrusted_forwarded_ip walk_values
  rightmost_untrusted_forwarded_ip-forged values forged honest addr h =
      ap (walk_values net prefixes) (reverse-append values ((forged ++ (b',' ∷ honest)) ∷ []))
      ∙ step
    where
      entries :
          reverse (split (forged ++ (b',' ∷ honest)))
          ≡ reverse (split honest) ++ reverse (split forged)
      entries =
          ap reverse (split_from-append [] forged honest)
          ∙ reverse-append (split forged) (split honest)

      step :
          of_walk
            (walk_entries net prefixes (reverse (split (forged ++ (b',' ∷ honest)))))
            (walk_values net prefixes (reverse values))
          ≡ some addr
      step =
          rw
            (
              entries,
              walk_entries-append net prefixes (reverse (split honest)) (reverse (split forged)),
            )
            (of_walk-after (walk_entries net prefixes (reverse (split honest)))
              (walk_entries net prefixes (reverse (split forged)))
              (walk_values net prefixes (reverse values)) addr h)
