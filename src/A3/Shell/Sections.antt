-- ===== src/A3/Shell/Sections.antt =====
-- The sections of a line: what `strtok` keeps while they run.
use mcgill_ecse_427_operatin.Prelude.{
  ℕ, zero, suc, ◌≡◌, ◌≢◌, refl, sym, ap, ◌∙◌, subst, true, false, Bool-cases, ◌⊎◌, inl, inr, ◌==◌,
  Option, none, some, List, [], ◌∷◌, ◌++◌, CString, arith,
}
use mcgill_ecse_427_operatin.Prelude.Int.{ℤ, pos, minus_one, ◌==ℤ◌}
use mcgill_ecse_427_operatin.Prelude.Stdio.{length}
use mcgill_ecse_427_operatin.A3.Host.{Host}
use mcgill_ecse_427_operatin.A3.Machine.{Machine, Run, ok, Cmd, and_then}
use mcgill_ecse_427_operatin.A3.Machine.Returns.{Always, Always-and_then}
use mcgill_ecse_427_operatin.A3.Shell.{
  semicolon, strtok, until_semicolon, run_section, run_sections, next_token, parse_with,
}

-- A section with at least one byte and no `;`.
abbrev NoSemicolon : CString → Type 0
NoSemicolon [] = Unit {0}
NoSemicolon (c ∷ s) = ((c == semicolon) ≡ false) × NoSemicolon s

abbrev IsSection : CString → Type 0
IsSection t = (t ≢ []) × NoSemicolon t

abbrev pub AllSections : List CString → Type 0
AllSections [] = Unit {0}
AllSections (t ∷ ts) = IsSection t × AllSections ts

-- The sections with a `;` behind each of them.
abbrev pub line_text : List CString → CString
line_text [] = []
line_text (t ∷ ts) = t ++ (semicolon ∷ line_text ts)

until_semicolon-section :
    (t s : CString) → NoSemicolon t → until_semicolon (t ++ (semicolon ∷ s)) ≡ (t, s)
unfolding until_semicolon
until_semicolon-section [] s p = refl
until_semicolon-section (c ∷ t) s p = rw (p.0, until_semicolon-section t s p.1)

strtok-section : (t s : CString) → IsSection t → strtok (t ++ (semicolon ∷ s)) ≡ (some t, s)
unfolding strtok
strtok-section [] s p = absurd (p.0 refl)
strtok-section (c ∷ t) s p = rw (p.1.0, until_semicolon-section t s p.1.1)

strtok-none : (s : CString) → (strtok s).0 ≡ none → (strtok s).1 ≡ []
unfolding strtok
strtok-none [] e = refl
strtok-none (c ∷ s) e = ground (arith, strtok-none s)

module _ {W : Type 0} (frame_store_size var_store_size : ℕ) (h : Host W) (cwd : CString)
    (fuel stray : ℕ) (parse : CString → Cmd W ℤ) where
  abbrev section_run : CString → Cmd W ℤ
  section_run t = run_section frame_store_size var_store_size h cwd fuel stray parse t

  -- The sections one after another, while `strtok` keeps those behind; `code` is of the one before.
  abbrev pub run_each : List CString → ℤ → Cmd W ℤ
  run_each [] code m = ok code (record m { cursor = [] })
  run_each (t ∷ ts) code m =
      and_then (section_run t (record m { cursor = line_text ts })) (λ ret. run_each ts ret)

  -- A section that returns, with another code than -1, and leaves to `strtok` what it keeps.
  abbrev pub IsPlain : CString → Type 0
  IsPlain t =
      (m : Machine W)
      → (ret : ℤ) × (m' : Machine W) × (section_run t m ≡ ok ret m')
        × ((ret ==ℤ minus_one) ≡ false)
        × (m'.cursor ≡ m.cursor)

  abbrev AllPlain : List CString → Type 0
  AllPlain [] = Unit {0}
  AllPlain (t ∷ ts) = IsPlain t × AllPlain ts

  abbrev sections_from : ℕ → ℤ → (Option CString) × CString → Cmd W ℤ
  sections_from steps code r m =
      run_sections frame_store_size var_store_size h cwd fuel stray parse steps code r.0
        (record m { cursor = r.1 })

  run_sections-step :
      (steps : ℕ) (code : ℤ) (t : CString) (m : Machine W) (ret : ℤ) (m' : Machine W)
      → section_run t m ≡ ok ret m'
      → (ret ==ℤ minus_one) ≡ false
      → run_sections frame_store_size var_store_size h cwd fuel stray parse
          (suc steps)
          code
          (some t)
          m
        ≡ sections_from steps ret (strtok m'.cursor) m'
  unfolding run_sections next_token
  run_sections-step steps code t m ret m' e other = rw (e, other) refl

  run_sections-each :
      (ts : List CString) (code : ℤ) (m : Machine W)
      → AllSections ts
      → AllPlain ts
      → sections_from (length ts) code (strtok (line_text ts)) m ≡ run_each ts code m
  unfolding run_sections strtok
  run_sections-each [] code m a plain = refl
  run_sections-each (t ∷ ts) code m a plain =
      let r = plain.0 (record m { cursor = line_text ts }) in
      let m1 : Machine W = record m { cursor = line_text ts } in
      ap (λ s. sections_from (suc (length ts)) code s m) (strtok-section t (line_text ts) a.0)
      ∙ run_sections-step (length ts) code t m1 r.0 r.1 r.2 r.3
      ∙ ap (λ c. sections_from (length ts) r.0 (strtok c) r.1) r.4
      ∙ run_sections-each ts r.0 r.1 a.1 plain.1
      ∙ sym (ap (λ o. and_then o (λ ret. run_each ts ret)) r.2)

  -- For a line of sections that are not empty, have no `;` inside and have one behind them, where
  -- each section returns on every machine, with another code than -1, and leaves the text that
  -- `strtok` keeps as it was: `parse_with`, with as many rounds as sections, runs the sections in
  -- order, each with the text of the later ones kept, and returns the code of the last one.
  pub parse_with-each :
      (ts : List CString) (m : Machine W)
      → AllSections ts
      → AllPlain ts
      → parse_with frame_store_size var_store_size h cwd fuel stray parse
          (length ts)
          (line_text ts)
          m
        ≡ run_each ts (pos 0) m
  unfolding parse_with next_token
  parse_with-each ts m a plain = run_sections-each ts (pos 0) m a plain

  abbrev IsOver : ℤ → Machine W → Type 0
  IsOver ret m = ((ret ==ℤ minus_one) ≡ true) ⊎ (m.cursor ≡ [])

  run_sections-IsOver :
      (steps : ℕ) (code : ℤ) (token : Option CString) (m : Machine W)
      → (token ≡ none → m.cursor ≡ [])
      → Always IsOver
          (run_sections frame_store_size var_store_size h cwd fuel stray parse steps code token m)
  unfolding run_sections next_token
  run_sections-IsOver steps code none m over = inr (over refl)
  run_sections-IsOver zero code (some t) m over = tt
  run_sections-IsOver (suc steps) code (some t) m over =
      Always-and_then IsOver _ (section_run t m) (λ ret m1. elim (Bool-cases (ret ==ℤ minus_one)) [
        | inl quit ↦ rw quit (inl quit)
        | inr other ↦ rw other (
            run_sections-IsOver steps ret (strtok m1.cursor).0
              (record m1 { cursor = (strtok m1.cursor).1 }) (strtok-none m1.cursor))
      ])

  Always-ok :
      (Q : ℤ → Machine W → Type 0) (r : Run W ℤ) (ret : ℤ) (m : Machine W)
      → Always Q r
      → r ≡ ok ret m
      → Q ret m
  Always-ok Q r ret m always e = subst (Always Q) e always

  -- Whenever the parse of a line returns another code than -1, the text that `strtok` keeps is empty
  -- afterwards, whatever the interpreter did. So a section that parsed another line is the last one
  -- of its own line.
  parse_with-over :
      (steps : ℕ) (ui : CString) (m : Machine W) (ret : ℤ) (m' : Machine W)
      → parse_with frame_store_size var_store_size h cwd fuel stray parse steps ui m ≡ ok ret m'
      → (ret ==ℤ minus_one) ≡ false
      → m'.cursor ≡ []
  unfolding parse_with next_token
  parse_with-over steps ui m ret m' e other =
      elim (Always-ok IsOver _ ret m'
        (run_sections-IsOver steps (pos 0) (strtok ui).0 (record m { cursor = (strtok ui).1 })
          (strtok-none ui))
        e) [ inl quit ↦ cc (quit, other) | inr over ↦ over ]
