-- ===== src/Myprocfs/Line.antt =====
-- The lines that the kernel writes to /proc/PID/maps, after proc(5) and `show_map_vma`, and how
-- `parse_map_line` reads them.
use process_magic.Prelude.{
  ℕ, zero, suc, ◌-◌, ◌≤◌, ◌≡◌, refl, ◌∙◌, [], ◌∷◌, ◌++◌, List, Bool, true, false, if◌then◌else◌,
  replicate, some, ok, arith, All, All-append,
}
use process_magic.Text.{Text, before, behind, splitn, is_whitespace, trim, trim_start, max_u64}
use process_magic.Text.Numbers.{padded_hex, padded_hex-IsHex, IsHex, parse_unsigned-padded_hex}
use process_magic.Words.{Profile, sub_u64_fits}
use mathlib.Core.List.{reverse, reverse-reverse}
use process_magic.Prelude.{ap}
use process_magic.Myprocfs.{is_dash, parse_byte_range, parse_permissions, parse_map_line}

module _ (p : ℕ → Bool) where
  abbrev Avoids : Text → Type 0
  Avoids = All (λ c. p c ≡ false)

  before-append : (s t : Text) (c : ℕ) → Avoids s → p c ≡ true → before p (s ++ (c ∷ t)) ≡ s
  unfolding before
  before-append [] t c _ h = rw h
  before-append (d ∷ s) t c (hd, hs) h = rw (hd, before-append s t c hs h)

  behind-append : (s t : Text) (c : ℕ) → Avoids s → p c ≡ true → behind p (s ++ (c ∷ t)) ≡ some t
  unfolding behind
  behind-append [] t c _ h = rw h
  behind-append (d ∷ s) t c (hd, hs) h = rw (hd, behind-append s t c hs h)

  splitn_step :
      (n : ℕ) (s t : Text) (c : ℕ)
      → Avoids s
      → p c ≡ true
      → splitn p (suc (suc n)) (s ++ (c ∷ t)) ≡ s ∷ splitn p (suc n) t
  unfolding splitn
  splitn_step n s t c hs h = rw (before-append s t c hs h, behind-append s t c hs h, splitn)

  splitn_last : (s : Text) → splitn p 1 s ≡ s ∷ []
  unfolding splitn
  splitn_last s = refl

-- A line of the file. The addresses are printed in hexadecimal with zeros in front, `fields` are the
-- offset, the device and the inode, and spaces stand before the path, which may be empty.
pub record Entry : Type 0 where
  pub start : ℕ
  pub start_zeros : ℕ
  pub end : ℕ
  pub end_zeros : ℕ
  pub readable : Bool
  pub writable : Bool
  pub executable : Bool
  pub private : Bool
  pub offset : Text
  pub device : Text
  pub inode : Text
  pub spaces : ℕ
  pub path : Text

abbrev pub permission_text : Entry → Text
permission_text e =
    (if e.readable then b'r' else b'-')
    ∷ (if e.writable then b'w' else b'-')
    ∷ (if e.executable then b'x' else b'-')
    ∷ (if e.private then b'p' else b's')
    ∷ []

abbrev range_text : Entry → Text
range_text e = padded_hex e.start_zeros e.start ++ (b'-' ∷ padded_hex e.end_zeros e.end)

abbrev pub entry_line : Entry → Text
entry_line e =
    range_text e
    ++ (b' '
        ∷ (permission_text e
            ++ (b' '
                ∷ (e.offset
                    ++ (b' '
                        ∷ (e.device
                            ++ (b' '
                                ∷ (e.inode ++ (b' ' ∷ (replicate e.spaces b' ' ++ e.path))))))))))

abbrev StartsVisibly : Text → Type 0
StartsVisibly [] = Unit
StartsVisibly (c ∷ s) = is_whitespace c ≡ false

-- What the kernel guarantees of a line: an address range within 64 bits, fields without blanks, and
-- a path that neither begins nor ends with a blank.
pub record IsWritten (e : Entry) : Type 0 where
  pub ordered : e.start ≤ e.end
  pub fits : e.end ≤ max_u64
  pub offset_solid : Avoids is_whitespace e.offset
  pub device_solid : Avoids is_whitespace e.device
  pub inode_solid : Avoids is_whitespace e.inode
  pub path_begins : StartsVisibly e.path
  pub path_ends : StartsVisibly (reverse e.path)

IsHex-solid : (c : ℕ) → IsHex c → is_whitespace c ≡ false
unfolding is_whitespace
IsHex-solid c h = ground arith

IsHex-ne-dash : (c : ℕ) → IsHex c → is_dash c ≡ false
IsHex-ne-dash c h = ground arith

All-map {ℓ κ μ} :
    {A : Type ℓ} (P : A → Type κ) (Q : A → Type μ)
    → ((a : A) → P a → Q a)
    → (xs : List A) → All P xs
    → All Q xs
All-map P Q f [] _ = tt
All-map P Q f (x ∷ xs) (px, pxs) = (f x px, All-map P Q f xs pxs)

range_text-solid : (e : Entry) → Avoids is_whitespace (range_text e)
unfolding is_whitespace
range_text-solid e =
    All-append _ (padded_hex e.start_zeros e.start) _
      (All-map IsHex _ IsHex-solid _ (padded_hex-IsHex e.start_zeros e.start))
      (refl, All-map IsHex _ IsHex-solid _ (padded_hex-IsHex e.end_zeros e.end))

permission_text-solid : (e : Entry) → Avoids is_whitespace (permission_text e)
unfolding is_whitespace
permission_text-solid e = ground arith

parse_byte_range-range_text :
    (p : Profile) (e : Entry)
    → IsWritten e
    → parse_byte_range p (range_text e) ≡ ok (e.start, e.end - e.start)
unfolding parse_byte_range
parse_byte_range-range_text p e h = rw (
  splitn_step is_dash 0 (padded_hex e.start_zeros e.start) (padded_hex e.end_zeros e.end) b'-'
      (All-map IsHex _ IsHex-ne-dash _ (padded_hex-IsHex e.start_zeros e.start)) refl,
  splitn_last is_dash,
  parse_unsigned-padded_hex e.start_zeros e.start (omega arith),
  parse_unsigned-padded_hex e.end_zeros e.end h.fits,
  sub_u64_fits p e.end e.start h.ordered,
)

parse_permissions-permission_text :
    (e : Entry)
    → parse_permissions (permission_text e) ≡ ok (e.readable, e.writable, e.executable, e.private)
unfolding parse_permissions
parse_permissions-permission_text e = ground arith

trim_start-spaces : (n : ℕ) (s : Text) → trim_start (replicate n b' ' ++ s) ≡ trim_start s
unfolding trim_start
trim_start-spaces zero s = refl
trim_start-spaces (suc n) s = trim_start-spaces n s

trim_start-StartsVisibly : (s : Text) → StartsVisibly s → trim_start s ≡ s
unfolding trim_start
trim_start-StartsVisibly [] h = refl
trim_start-StartsVisibly (c ∷ s) h = rw h

trim-spaces :
    (n : ℕ) (s : Text)
    → StartsVisibly s
    → StartsVisibly (reverse s)
    → trim (replicate n b' ' ++ s) ≡ s
unfolding trim
trim-spaces n s begins ends =
    rw
      (
        trim_start-spaces n s,
        trim_start-StartsVisibly s begins,
        trim_start-StartsVisibly (reverse s) ends,
      )
      (reverse-reverse s)

module _ (e : Entry) (h : IsWritten e) where
  splitn-entry_line :
      splitn is_whitespace 6 (entry_line e)
      ≡ range_text e
        ∷ permission_text e
        ∷ e.offset
        ∷ e.device
        ∷ e.inode
        ∷ (replicate e.spaces b' ' ++ e.path)
        ∷ []
  unfolding is_whitespace splitn
  splitn-entry_line =
      splitn_step is_whitespace 4 _ _ b' ' (range_text-solid e) refl
      ∙ ap (λ t. range_text e ∷ t)
          (splitn_step is_whitespace 3 _ _ b' ' (permission_text-solid e) refl
            ∙ ap (λ t. permission_text e ∷ t)
                (splitn_step is_whitespace 2 _ _ b' ' h.offset_solid refl
                  ∙ ap (λ t. e.offset ∷ t)
                      (splitn_step is_whitespace 1 _ _ b' ' h.device_solid refl
                        ∙ ap (λ t. e.device ∷ t)
                            (splitn_step is_whitespace 0 _ _ b' ' h.inode_solid refl))))

  -- A line of /proc/PID/maps as the kernel writes it, with any zero padding of the addresses and
  -- any number of spaces before the path, is parsed to the mapping that it describes: base
  -- address, size, the four permission flags and the path.
  pub parse_map_line-entry_line :
      (p : Profile)
      → parse_map_line p (entry_line e)
        ≡ ok (record {
          base_address = e.start;
          size = e.end - e.start;
          label = e.path;
          readable = e.readable;
          writable = e.writable;
          executable = e.executable;
          private = e.private;
          bytes = [];
        })
  unfolding parse_map_line
  parse_map_line-entry_line p = rw (
    splitn-entry_line,
    parse_byte_range-range_text p e h,
    parse_permissions-permission_text e,
    trim-spaces e.spaces e.path h.path_begins h.path_ends,
  )
