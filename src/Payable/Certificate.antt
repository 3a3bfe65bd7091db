-- ===== src/Payable/Certificate.antt =====
-- buildCertificateLines of wht-certificate.ts. The ids of the lines are those of the caller.
use nestjs_api_template.Prelude.Maps
use nestjs_api_template.Payable.Wht.{WhtLineInput}
use nestjs_api_template.Prelude.{
  Bool-cases, List, Option, String, [], ap, arith, if◌then◌else◌, inl, inr, none, refl, some, suc,
  ℕ, ◌∙◌, ◌∷◌, ◌≡◌,
}
use nestjs_api_template.Prelude.Int.{
  +ℤ_assoc, eq_of_parts, int_laws, leb_ℤ, ltb_ℤ, neg_part, pos, pos_part, zero_add, ℤ, ◌+ℤ◌, ◌≤ℤ◌,
}
use nestjs_api_template.Prelude.Lists.{All, All-imp, find, sum_by, sum_by-All}

pub record CertificateLine : Type 0 where
  pub id : String
  pub line_no : ℕ
  pub tax_code : String
  pub income_type : String
  pub rate_bp : ℤ
  pub base_minor : ℤ
  pub tax_minor : ℤ

pub record Certificate : Type 0 where
  pub lines : List CertificateLine
  pub pnd_form : String
  pub total_base_minor : ℤ
  pub total_tax_minor : ℤ

-- What the map holds for a tax code after one more line of it.
unfoldable pub grouped_with : Option WhtLineInput → WhtLineInput → WhtLineInput
grouped_with none i = i
grouped_with (some g) i = record g {
  base_minor = g.base_minor +ℤ i.base_minor;
  tax_minor = g.tax_minor +ℤ i.tax_minor;
}

-- The loop over the lines; those without tax are skipped.
unfoldable pub group_lines :
    List (String × WhtLineInput) → List WhtLineInput → List (String × WhtLineInput)
unfolding grouped_with
group_lines groups [] = groups
group_lines groups (i ∷ rest) =
    group_lines
      (if leb_ℤ i.tax_minor (pos 0)
        then groups
        else Maps.put i.tax_code (grouped_with (Maps.get i.tax_code groups) i) groups)
      rest

-- The numbered lines of the groups, from a number on; `new_id` gives the id of each number.
unfoldable pub certificate_lines : (ℕ → String) → ℕ → List WhtLineInput → List CertificateLine
certificate_lines new_id n [] = []
certificate_lines new_id n (g ∷ rest) =
    record {
      id = new_id n;
      line_no = suc n;
      tax_code = g.tax_code;
      income_type = g.income_type;
      rate_bp = g.rate_bp;
      base_minor = g.base_minor;
      tax_minor = g.tax_minor;
    }
    ∷ certificate_lines new_id (suc n) rest

abbrev pub form_of : Option WhtLineInput → String
form_of none = "PND53"
form_of (some i) = i.pnd_form

unfoldable pub build_certificate_lines : List WhtLineInput → (ℕ → String) → Certificate
unfolding group_lines certificate_lines
build_certificate_lines inputs new_id =
    let lines = certificate_lines new_id 0 (Maps.values (group_lines [] inputs)) in
    record {
      lines = lines;
      pnd_form = form_of (find (λ i. ltb_ℤ (pos 0) i.tax_minor) inputs);
      total_base_minor = sum_by (λ l. l.base_minor) lines;
      total_tax_minor = sum_by (λ l. l.tax_minor) lines;
    }

-- An amount of the lines that have tax.
abbrev taxed : (WhtLineInput → ℤ) → WhtLineInput → ℤ
taxed f i = if leb_ℤ i.tax_minor (pos 0) then pos 0 else f i

abbrev tax_of : WhtLineInput → ℤ
tax_of i = i.tax_minor

abbrev base_of : WhtLineInput → ℤ
base_of i = i.base_minor

gain :
    (after held before amount : ℤ)
    → after +ℤ held ≡ before +ℤ (held +ℤ amount)
    → after ≡ before +ℤ amount
gain after held before amount e = omega (int_laws, ap pos_part e, ap neg_part e)

group_tax :
    (o : Option WhtLineInput) (i : WhtLineInput)
    → ((grouped_with o i).tax_minor ≡ Maps.old_value tax_of o +ℤ i.tax_minor)
      × ((grouped_with o i).base_minor ≡ Maps.old_value base_of o +ℤ i.base_minor)
unfolding grouped_with
group_tax none i = (omega int_laws, omega int_laws)
group_tax (some g) i = (refl, refl)

put_gains :
    (f : WhtLineInput → ℤ) (groups : List (String × WhtLineInput)) (i : WhtLineInput)
    → f (grouped_with (Maps.get i.tax_code groups) i)
      ≡ Maps.old_value f (Maps.get i.tax_code groups) +ℤ f i
    → sum_by f
        (Maps.values (Maps.put i.tax_code (grouped_with (Maps.get i.tax_code groups) i) groups))
      ≡ sum_by f (Maps.values groups) +ℤ f i
put_gains f groups i e = gain _ _ _ _ (Maps.sum_by-put f i.tax_code _ groups ∙ rw e refl)

group_lines_sums :
    (groups : List (String × WhtLineInput)) (inputs : List WhtLineInput)
    → (sum_by tax_of (Maps.values (group_lines groups inputs))
        ≡ sum_by tax_of (Maps.values groups) +ℤ sum_by (taxed tax_of) inputs)
      × (sum_by base_of (Maps.values (group_lines groups inputs))
          ≡ sum_by base_of (Maps.values groups) +ℤ sum_by (taxed base_of) inputs)
unfolding group_lines
group_lines_sums groups [] = (omega int_laws, omega int_laws)
group_lines_sums groups (i ∷ rest) = elim (Bool-cases (leb_ℤ i.tax_minor (pos 0))) [
  | inl e ↦
      let (tax, base) = group_lines_sums groups rest in
      rw e (tax ∙ omega int_laws, base ∙ omega int_laws)
  | inr e ↦
      let next = Maps.put i.tax_code (grouped_with (Maps.get i.tax_code groups) i) groups in
      let (tax, base) = group_lines_sums next rest in
      let (t, b) = group_tax (Maps.get i.tax_code groups) i in
      rw e (
        tax ∙ rw (put_gains tax_of groups i t) (+ℤ_assoc _ _ _),
        base ∙ rw (put_gains base_of groups i b) (+ℤ_assoc _ _ _),
      )
]

certificate_lines_sums :
    (new_id : ℕ → String) (n : ℕ) (gs : List WhtLineInput)
    → (sum_by (λ l. l.tax_minor) (certificate_lines new_id n gs) ≡ sum_by tax_of gs)
      × (sum_by (λ l. l.base_minor) (certificate_lines new_id n gs) ≡ sum_by base_of gs)
unfolding certificate_lines
certificate_lines_sums new_id n [] = (refl, refl)
certificate_lines_sums new_id n (g ∷ gs) =
    let (t, b) = certificate_lines_sums new_id (suc n) gs in (rw t refl, rw b refl)

taxed_tax : (i : WhtLineInput) → pos 0 ≤ℤ i.tax_minor → taxed tax_of i ≡ i.tax_minor
taxed_tax i h = elim (Bool-cases (leb_ℤ i.tax_minor (pos 0))) [
  | inl e ↦ rw e (ground (arith, eq_of_parts (pos 0) i.tax_minor))
  | inr e ↦ rw e refl
]

-- A certificate certifies what was withheld: where no line has a negative tax, its total tax is the
-- sum of the taxes of all lines, and its total base that of the bases of the lines that have tax,
-- however the lines are grouped by tax code.
pub certificate_totals :
    (inputs : List WhtLineInput) (new_id : ℕ → String)
    → All (λ i. pos 0 ≤ℤ i.tax_minor) inputs
    → ((build_certificate_lines inputs new_id).total_tax_minor ≡ sum_by (λ i. i.tax_minor) inputs)
      × ((build_certificate_lines inputs new_id).total_base_minor
          ≡ sum_by (λ i. if leb_ℤ i.tax_minor (pos 0) then pos 0 else i.base_minor) inputs)
unfolding build_certificate_lines
certificate_totals inputs new_id h =
    let (tax, base) = group_lines_sums [] inputs in
    let (t, b) = certificate_lines_sums new_id 0 (Maps.values (group_lines [] inputs)) in
    (
      t ∙ tax ∙ zero_add _ ∙ sum_by-All _ _ inputs (All-imp taxed_tax inputs h),
      b ∙ base ∙ zero_add _,
    )
