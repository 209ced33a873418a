-- ===== src/Address/Parse/Traditional.antt =====
-- The traditional form `zone:net/node.point@domain`, as `ftn_addrparse` reads it.
use binkleyforce.Base.{
  ℕ, zero, suc, ◌≤◌, ◌≡◌, refl, ap, ◌∙◌, arith, Bool, true, false, some, [], ◌∷◌, ◌++◌, All, Bytes,
  length, take,
}
use binkleyforce.Base.Int.{pos}
use binkleyforce.Text.{print_nat, strnxcpy}
use binkleyforce.Text.Decimal.{
  IsDigit, EndsNumber, print_nat-IsDigit, head-print_nat, atoi-print_nat,
}
use binkleyforce.Text.Printable.{IsPrint, string_printable-id, take-all}
use binkleyforce.Address.{Faddr}
use binkleyforce.Address.Parse.{
  addrstr2int, copy_domain, Scan, number_at, fido_step, fido_last, fido_domain, fido_loop,
  ftn_addrparse_fido, detect_form, defaults, set_zone, set_net, set_node, set_point, got_nothing,
}

-- Digits move `p` on and leave everything else.
detect_digits :
    (w f : Bool) (ds rest : Bytes)
    → All IsDigit ds
    → detect_form w f (ds ++ rest) ≡ detect_form w f rest
unfolding detect_form
detect_digits w f [] rest h = refl
detect_digits w f (c ∷ ds) rest (hc, h) = ground (arith, detect_digits w f ds rest h)

step_digit :
    (w : Bool) (c : ℕ) (p s : Bytes) (st : Scan)
    → IsDigit c
    → fido_loop w (c ∷ p) s st ≡ fido_loop w p s st
unfolding fido_loop fido_step
step_digit w c p s st h = ground arith

loop_digits :
    (w : Bool) (ds rest s : Bytes) (st : Scan)
    → All IsDigit ds
    → fido_loop w (ds ++ rest) s st ≡ fido_loop w rest s st
loop_digits w [] rest s st h = refl
loop_digits w (c ∷ ds) rest s st (hc, h) =
    step_digit w c (ds ++ rest) s st hc ∙ loop_digits w ds rest s st h

addrstr2int-print_nat :
    (n : ℕ) (rest : Bytes)
    → n ≤ 0x7fff
    → EndsNumber rest
    → addrstr2int (print_nat n ++ rest) ≡ pos n
unfolding addrstr2int
addrstr2int-print_nat n rest h e = rw (atoi-print_nat n rest e) (ground arith)

number_at-print_nat :
    (w : Bool) (n : ℕ) (rest : Bytes)
    → n ≤ 0x7fff
    → EndsNumber rest
    → number_at w (print_nat n ++ rest) ≡ some (pos n)
unfolding number_at
number_at-print_nat w n rest h e =
    rw (head-print_nat n rest) (ap some (addrstr2int-print_nat n rest h e))

-- A number and the separator behind it.
module _ (w : Bool) (n : ℕ) (rest : Bytes) (st : Scan) (small : n ≤ 0x7fff) where
  read_zone :
      st.gotzone ≡ false
      → fido_loop w (print_nat n ++ (b':' ∷ rest)) (print_nat n ++ (b':' ∷ rest)) st
        ≡ fido_loop w rest rest (set_zone (pos n) st)
  unfolding fido_loop fido_step
  read_zone g =
      loop_digits w (print_nat n) (b':' ∷ rest) _ st (print_nat-IsDigit n)
      ∙ ground (arith, number_at-print_nat w n (b':' ∷ rest) small refl)

  read_net :
      st.gotnet ≡ false
      → fido_loop w (print_nat n ++ (b'/' ∷ rest)) (print_nat n ++ (b'/' ∷ rest)) st
        ≡ fido_loop w rest rest (set_net (pos n) st)
  unfolding fido_loop fido_step
  read_net g =
      loop_digits w (print_nat n) (b'/' ∷ rest) _ st (print_nat-IsDigit n)
      ∙ ground (arith, number_at-print_nat w n (b'/' ∷ rest) small refl)

  read_node :
      st.gotnode ≡ false
      → fido_loop w (print_nat n ++ (b'.' ∷ rest)) (print_nat n ++ (b'.' ∷ rest)) st
        ≡ fido_loop w rest rest (set_node (pos n) st)
  unfolding fido_loop fido_step
  read_node g =
      loop_digits w (print_nat n) (b'.' ∷ rest) _ st (print_nat-IsDigit n)
      ∙ ground
          (arith, number_at-print_nat w n (b'.' ∷ rest) small refl, head-print_nat n (b'.' ∷ rest))

-- The domain as it stands behind the numbers.
abbrev pub at_domain : Bytes → Bytes
at_domain [] = []
at_domain (c ∷ domain) = b'@' ∷ c ∷ domain

at_domain_ends : (domain : Bytes) → EndsNumber (at_domain domain)
at_domain_ends [] = refl
at_domain_ends (c ∷ domain) = refl

loop_end :
    (w : Bool) (domain s : Bytes) (st : Scan)
    → fido_loop w (at_domain domain) s st ≡ fido_domain (at_domain domain) (fido_last w s st)
unfolding fido_loop
loop_end w [] s st = refl
loop_end w (c ∷ domain) s st = refl

read_domain :
    (domain : Bytes) (st : Scan)
    → All IsPrint domain
    → length domain ≤ 40
    → st.addr.domain ≡ []
    → fido_domain (at_domain domain) (false, st) ≡ (false, record st.addr { domain = domain })
unfolding fido_domain copy_domain strnxcpy
read_domain [] st h k e = cc
read_domain (c ∷ domain) st h k e =
    ap (λ d. (false, record st.addr { domain = d }))
      (ap (take 40) (string_printable-id (c ∷ domain) h) ∙ take-all 40 (c ∷ domain) k)

-- The last number, where the node is or is not read yet.
module _ (w : Bool) (n : ℕ) (domain : Bytes) (st : Scan) (small : n ≤ 0x7fff)
    (zone : st.gotzone ≡ true) (net : st.gotnet ≡ true) (empty : st.addr.domain ≡ [])
    (printable : All IsPrint domain) (short : length domain ≤ 40) where
  last_node :
      st.gotnode ≡ false
      → fido_loop w (print_nat n ++ at_domain domain) (print_nat n ++ at_domain domain) st
        ≡ (false, record st.addr { node = pos n; domain = domain })
  unfolding fido_last
  last_node g =
      loop_digits w (print_nat n) (at_domain domain) _ st (print_nat-IsDigit n)
      ∙ loop_end w domain _ st
      ∙ ap (fido_domain (at_domain domain)) {y = (false, set_node (pos n) st)} (
          ground (
            arith,
            number_at-print_nat w n (at_domain domain) small (at_domain_ends domain),
            head-print_nat n (at_domain domain),
          ))
      ∙ read_domain domain (set_node (pos n) st) printable short empty

  last_point :
      st.gotnode ≡ true
      → st.gotpoint ≡ false
      → fido_loop w (print_nat n ++ at_domain domain) (print_nat n ++ at_domain domain) st
        ≡ (false, record st.addr { point = pos n; domain = domain })
  unfolding fido_last
  last_point g g' =
      loop_digits w (print_nat n) (at_domain domain) _ st (print_nat-IsDigit n)
      ∙ loop_end w domain _ st
      ∙ ap (fido_domain (at_domain domain)) {y = (false, set_point (pos n) st)} (
          ground (
            arith,
            number_at-print_nat w n (at_domain domain) small (at_domain_ends domain),
            head-print_nat n (at_domain domain),
          ))
      ∙ read_domain domain (set_point (pos n) st) printable short empty

-- A point that is zero is not printed.
abbrev pub point_text : ℕ → Bytes → Bytes
point_text zero rest = rest
point_text (suc p) rest = b'.' ∷ (print_nat (suc p) ++ rest)

-- An address in the traditional form, with its domain.
abbrev pub full_text : ℕ → ℕ → ℕ → ℕ → Bytes → Bytes
full_text z n f p domain =
    print_nat z
    ++ (b':' ∷ (print_nat n ++ (b'/' ∷ (print_nat f ++ point_text p (at_domain domain)))))

detect_end : (w : Bool) (domain : Bytes) → detect_form w false (at_domain domain) ≡ some false
unfolding detect_form
detect_end w [] = refl
detect_end w (c ∷ domain) = refl

detect_point :
    (w : Bool) (p : ℕ) (domain : Bytes)
    → detect_form w false (point_text p (at_domain domain)) ≡ some false
unfolding detect_form
detect_point w zero domain = detect_end w domain
detect_point w (suc p) domain =
    detect_digits w false (print_nat (suc p)) (at_domain domain) (print_nat-IsDigit (suc p))
    ∙ detect_end w domain

pub detect_full :
    (w : Bool) (z n f p : ℕ) (domain : Bytes)
    → detect_form w false (full_text z n f p domain) ≡ some false
unfolding detect_form
detect_full w z n f p domain =
    detect_digits w false (print_nat z) _ (print_nat-IsDigit z)
    ∙ detect_digits w false (print_nat n) _ (print_nat-IsDigit n)
    ∙ detect_digits w false (print_nat f) _ (print_nat-IsDigit f)
    ∙ detect_point w p domain

-- The address that the text stands for.
abbrev pub numbered : ℕ → ℕ → ℕ → ℕ → Bytes → Faddr
numbered z n f p domain = record {
  inetform = false;
  zone = pos z;
  net = pos n;
  node = pos f;
  point = pos p;
  domain = domain;
}

module _ (w : Bool) (z n f : ℕ) (domain : Bytes) (zone : z ≤ 0x7fff) (net : n ≤ 0x7fff)
    (node : f ≤ 0x7fff) (printable : All IsPrint domain) (short : length domain ≤ 40) where
  parse_tail :
      (p : ℕ) (st : Scan)
      → p ≤ 0x7fff
      → st ≡ set_net (pos n) (set_zone (pos z) (got_nothing (defaults false)))
      → fido_loop w
          (print_nat f ++ point_text p (at_domain domain))
          (print_nat f ++ point_text p (at_domain domain))
          st
        ≡ (false, numbered z n f p domain)
  parse_tail zero st small e =
      rw e (last_node w f domain _ node refl refl refl printable short refl)
  parse_tail (suc p) st small e = rw e (
      read_node w f (print_nat (suc p) ++ at_domain domain) _ node refl
      ∙ last_point w (suc p) domain _ small refl refl refl printable short refl refl)

  pub parse_full :
      (p : ℕ)
      → p ≤ 0x7fff
      → ftn_addrparse_fido (defaults false) (full_text z n f p domain) w
        ≡ (false, numbered z n f p domain)
  unfolding ftn_addrparse_fido
  parse_full p small =
      read_zone w z _ _ zone refl ∙ read_net w n _ _ net refl ∙ parse_tail p _ small refl
