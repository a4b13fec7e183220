-- ===== src/Ftp/PasvString/Fields.antt =====
-- Where the separators of an address text stand, and what the fields between them give.
use cbbncd.Base.{
  ℕ, ◌+◌, ◌-◌, ◌≡◌, refl, ap₂, ◌∙◌, [], ◌∷◌, ◌++◌, append_assoc, set, take, drop, length,
  length-append, arith,
}
use cbbncd.Base.Text.{Bytes, substr, stoi, stol, to_int, Lacks}
use cbbncd.Base.Text.Find.{find_sep, set_at, take_at, drop_at}
use cbbncd.Ftp.PasvString.{
  parsed, ◌>>=◌, or_throw, port_of, from_pasv_string, string_to_address_family,
  from_extended_pasv_string,
}

regroup : (p x y : Bytes) (c : ℕ) → p ++ (x ++ c ∷ y) ≡ (p ++ (x ++ c ∷ [])) ++ y
regroup p x y c = simp append_assoc

length-next : (p x : Bytes) (c : ℕ) → length (p ++ (x ++ c ∷ [])) ≡ length p + length x + 1
length-next p x c = omega (arith, length-append p (x ++ c ∷ []), length-append x (c ∷ []))

module _ (a b c d e f : Bytes) where
  abbrev sep1 : ℕ
  sep1 = 0 + length a

  abbrev sep2 : ℕ
  sep2 = sep1 + 1 + length b

  abbrev sep3 : ℕ
  sep3 = sep2 + 1 + length c

  abbrev sep4 : ℕ
  sep4 = sep3 + 1 + length d

  abbrev sep5 : ℕ
  sep5 = sep4 + 1 + length e

  abbrev r4 : Bytes
  r4 = e ++ b',' ∷ f

  abbrev r3 : Bytes
  r3 = d ++ b',' ∷ r4

  abbrev r2 : Bytes
  r2 = c ++ b',' ∷ r3

  abbrev r1 : Bytes
  r1 = b ++ b',' ∷ r2

  abbrev s : Bytes
  s = a ++ b',' ∷ r1

  abbrev p1 : Bytes
  p1 = a ++ b',' ∷ []

  abbrev p2 : Bytes
  p2 = p1 ++ (b ++ b',' ∷ [])

  abbrev p3 : Bytes
  p3 = p2 ++ (c ++ b',' ∷ [])

  abbrev p4 : Bytes
  p4 = p3 ++ (d ++ b',' ∷ [])

  e1 : s ≡ p1 ++ r1
  e1 = regroup [] a r1 b','

  e2 : s ≡ p2 ++ r2
  e2 = e1 ∙ regroup p1 b r2 b','

  e3 : s ≡ p3 ++ r3
  e3 = e2 ∙ regroup p2 c r3 b','

  e4 : s ≡ p4 ++ r4
  e4 = e3 ∙ regroup p3 d r4 b','

  l1 : length p1 ≡ length a + 1
  l1 = omega (arith, length-next [] a b',')

  l2 : length p2 ≡ length p1 + length b + 1
  l2 = length-next p1 b b','

  l3 : length p3 ≡ length p2 + length c + 1
  l3 = length-next p2 c b','

  l4 : length p4 ≡ length p3 + length d + 1
  l4 = length-next p3 d b','

  abbrev q1 : Bytes
  q1 = a ++ b'.' ∷ []

  abbrev q2 : Bytes
  q2 = q1 ++ (b ++ b'.' ∷ [])

  m1 : length q1 ≡ length a + 1
  m1 = omega (arith, length-next [] a b'.')

  m2 : length q2 ≡ length q1 + length b + 1
  m2 = length-next q1 b b'.'

  set1 : set s sep1 b'.' ≡ a ++ b'.' ∷ r1
  set1 = set_at sep1 s a r1 b',' b'.' refl (omega arith)

  set2 : set (a ++ b'.' ∷ r1) sep2 b'.' ≡ (q1 ++ b) ++ b'.' ∷ r2
  set2 =
      set_at sep2 _ (q1 ++ b) r2 b',' b'.' (simp append_assoc)
        (omega (arith, m1, length-append q1 b))

  set3 : set ((q1 ++ b) ++ b'.' ∷ r2) sep3 b'.' ≡ (q2 ++ c) ++ b'.' ∷ r3
  set3 =
      set_at sep3 _ (q2 ++ c) r3 b',' b'.' (simp append_assoc)
        (omega (arith, m1, m2, length-append q2 c))

  cut : take sep4 ((q2 ++ c) ++ b'.' ∷ r3) ≡ a ++ (b'.' ∷ (b ++ (b'.' ∷ (c ++ b'.' ∷ d))))
  cut = take_at sep4 _ _ (b',' ∷ r4) (simp append_assoc) (
      omega (
        arith,
        m1,
        m2,
        length-append q2 c,
        length-append a (b'.' ∷ (b ++ (b'.' ∷ (c ++ b'.' ∷ d)))),
        length-append b (b'.' ∷ (c ++ b'.' ∷ d)),
        length-append c (b'.' ∷ d),
      ))

  numbers : substr s (sep4 + 1) (sep5 - sep4 + 1) ≡ take (length e + 2) r4
  numbers = ap₂ take (omega arith) (drop_at (sep4 + 1) s p4 r4 e4 (omega (arith, l1, l2, l3, l4)))

  last : drop (sep5 + 1) s ≡ f
  last =
      drop_at (sep5 + 1) s (p4 ++ (e ++ b',' ∷ [])) f (e4 ∙ regroup p4 e f b',')
        (omega (arith, l1, l2, l3, l4, length-next p4 e b','))

  -- `a,b,c,d,e,f` is read as the address `a.b.c.d` and the numbers of `e` and `f`.
  pub from_pasv_string_fields :
      Lacks b',' a
      → Lacks b',' b
      → Lacks b',' c
      → Lacks b',' d
      → Lacks b',' e
      → from_pasv_string
          (a ++ (b',' ∷ (b ++ (b',' ∷ (c ++ (b',' ∷ (d ++ (b',' ∷ (e ++ b',' ∷ f)))))))))
        ≡ (do
          major ← or_throw (stoi (take (length e + 2) (e ++ b',' ∷ f)))
          minor ← or_throw (stoi f)
          port ← port_of major minor
          parsed (a ++ (b'.' ∷ (b ++ (b'.' ∷ (c ++ b'.' ∷ d)))), port))
  unfolding from_pasv_string
  from_pasv_string_fields ha hb hc hd he = rw (
    find_sep b',' 0 s [] a r1 refl refl ha,
    find_sep b',' (sep1 + 1) s p1 b r2 e1 (omega (arith, l1)) hb,
    find_sep b',' (sep2 + 1) s p2 c r3 e2 (omega (arith, l1, l2)) hc,
    find_sep b',' (sep3 + 1) s p3 d r4 e3 (omega (arith, l1, l2, l3)) hd,
    find_sep b',' (sep4 + 1) s p4 e f e4 (omega (arith, l1, l2, l3, l4)) he,
    set1,
    set2,
    set3,
    cut,
    numbers,
    last,
  )

module _ (a f addr port rest : Bytes) where
  abbrev t3 : Bytes
  t3 = port ++ b'|' ∷ rest

  abbrev t2 : Bytes
  t2 = addr ++ b'|' ∷ t3

  abbrev t1 : Bytes
  t1 = f ++ b'|' ∷ t2

  abbrev t : Bytes
  t = a ++ b'|' ∷ t1

  abbrev u1 : Bytes
  u1 = a ++ b'|' ∷ []

  abbrev u2 : Bytes
  u2 = u1 ++ (f ++ b'|' ∷ [])

  abbrev u3 : Bytes
  u3 = u2 ++ (addr ++ b'|' ∷ [])

  abbrev bar1 : ℕ
  bar1 = 0 + length a

  abbrev bar2 : ℕ
  bar2 = bar1 + 1 + length f

  abbrev bar3 : ℕ
  bar3 = bar2 + 1 + length addr

  abbrev bar4 : ℕ
  bar4 = bar3 + 1 + length port

  f1 : t ≡ u1 ++ t1
  f1 = regroup [] a t1 b'|'

  f2 : t ≡ u2 ++ t2
  f2 = f1 ∙ regroup u1 f t2 b'|'

  f3 : t ≡ u3 ++ t3
  f3 = f2 ∙ regroup u2 addr t3 b'|'

  k1 : length u1 ≡ length a + 1
  k1 = omega (arith, length-next [] a b'|')

  k2 : length u2 ≡ length u1 + length f + 1
  k2 = length-next u1 f b'|'

  k3 : length u3 ≡ length u2 + length addr + 1
  k3 = length-next u2 addr b'|'

  family : substr t (bar1 + 1) (bar2 - bar1 - 1) ≡ f
  family =
      ap₂ take (omega arith) (drop_at (bar1 + 1) t u1 t1 f1 (omega (arith, k1)))
      ∙ take_at (length f) t1 f (b'|' ∷ t2) refl refl

  address : substr t (bar2 + 1) (bar3 - bar2 - 1) ≡ addr
  address =
      ap₂ take (omega arith) (drop_at (bar2 + 1) t u2 t2 f2 (omega (arith, k1, k2)))
      ∙ take_at (length addr) t2 addr (b'|' ∷ t3) refl refl

  number : substr t (bar3 + 1) (bar4 - bar3 - 1) ≡ port
  number =
      ap₂ take (omega arith) (drop_at (bar3 + 1) t u3 t3 f3 (omega (arith, k1, k2, k3)))
      ∙ take_at (length port) t3 port (b'|' ∷ rest) refl refl

  -- `…|f|addr|port|…` is read as a family, an address and a number.
  pub from_extended_pasv_string_fields :
      Lacks b'|' a
      → Lacks b'|' f
      → Lacks b'|' addr
      → Lacks b'|' port
      → from_extended_pasv_string t
        ≡ (do n ← or_throw (stol port); parsed (string_to_address_family f, addr, to_int n))
  unfolding from_extended_pasv_string
  from_extended_pasv_string_fields ha hf hd hp = rw (
    find_sep b'|' 0 t [] a t1 refl refl ha,
    find_sep b'|' (bar1 + 1) t u1 f t2 f1 (omega (arith, k1)) hf,
    find_sep b'|' (bar2 + 1) t u2 addr t3 f2 (omega (arith, k1, k2)) hd,
    find_sep b'|' (bar3 + 1) t u3 port rest f3 (omega (arith, k1, k2, k3)) hp,
    family,
    address,
    number,
  )
