-- ===== src/Measure/Cpu/Reading.antt =====
-- What `read_cpu` takes from /proc/stat.
use nixos_fleet.Base.{
  ℕ, zero, suc, ◌+◌, ◌%◌, ◌<◌, ◌≤◌, List, [], ◌∷◌, ◌++◌, ◌≡◌, ◌≢◌, ◌↔◌, ◌∙◌, refl, sym, ap, length,
  get_or, none, arith, Bytes, ascii, Error, ok, err, unexpected_proc_stat, >>=-eq-ok,
}
use nixos_fleet.Base.Order.{sum, add64_regroup}
use nixos_fleet.Base.Word.{add64, u64_mod}
use nixos_fleet.Measure.Cpu.{CpuTicks, add_ticks, cpu_numbers, cpu_fields, first_line, read_cpu}
use nixos_fleet.Text.Cut.{equal, equal_iff}
use nixos_fleet.Text.Lines.{scan_lines, IsLine, scan_lines-append}
use nixos_fleet.Text.Number.{parse_uint, checked, checked-eq-ok}
use nixos_fleet.Text.Render.{Spells, fields-Spells, Writes, parse_uint-Writes}
use nixos_fleet.Text.Words.{fields}

-- The words are read as these numbers, each with no error.
abbrev pub AllParse : List Bytes → List ℕ → Type 0
AllParse [] [] = Unit
AllParse (w ∷ ws) (n ∷ ns) = (parse_uint w ≡ (n, none)) × AllParse ws ns
AllParse _ _ = ⊥

abbrev pub AllWrites : List Bytes → List ℕ → Type 0
AllWrites [] [] = Unit
AllWrites (w ∷ ws) (n ∷ ns) = Writes w n × AllWrites ws ns
AllWrites _ _ = ⊥

pub AllWrites-AllParse : (ws : List Bytes) (ns : List ℕ) → AllWrites ws ns → AllParse ws ns
AllWrites-AllParse [] [] h = tt
AllWrites-AllParse [] (n ∷ ns) h = elim h [ ]
AllWrites-AllParse (w ∷ ws) [] h = elim h [ ]
AllWrites-AllParse (w ∷ ws) (n ∷ ns) (h, hs) = (parse_uint-Writes h, AllWrites-AllParse ws ns hs)

pub get_or-AllParse :
    (ws : List Bytes) (ns : List ℕ) (i : ℕ)
    → i < length ns
    → AllParse ws ns
    → parse_uint (get_or ws i []) ≡ (get_or ns i 0, none)
get_or-AllParse [] [] i b h = elim b [ ]
get_or-AllParse [] (n ∷ ns) i b h = elim h [ ]
get_or-AllParse (w ∷ ws) [] i b h = elim h [ ]
get_or-AllParse (w ∷ ws) (n ∷ ns) zero b h = h.0
get_or-AllParse (w ∷ ws) (n ∷ ns) (suc i) b h = get_or-AllParse ws ns i (omega arith) h.1

pub length-AllParse : (ws : List Bytes) (ns : List ℕ) → AllParse ws ns → length ws ≡ length ns
length-AllParse [] [] h = refl
length-AllParse [] (n ∷ ns) h = elim h [ ]
length-AllParse (w ∷ ws) [] h = elim h [ ]
length-AllParse (w ∷ ws) (n ∷ ns) h = ap suc (length-AllParse ws ns h.1)

add_ticks-sum :
    (ws : List Bytes) (ns : List ℕ) (a : ℕ)
    → a < u64_mod
    → AllParse ws ns
    → add_ticks a ws ≡ ok ((a + sum ns) % u64_mod)
unfolding add_ticks
add_ticks-sum [] [] a b h = ap ok (omega arith)
add_ticks-sum [] (n ∷ ns) a b h = elim h [ ]
add_ticks-sum (w ∷ ws) [] a b h = elim h [ ]
add_ticks-sum (w ∷ ws) (n ∷ ns) a b (h, hs) = rw h (
    add_ticks-sum ws ns (add64 a n) (unfold add64 in omega arith) hs
    ∙ ap ok (add64_regroup a n (sum ns)))

add_ticks-AllParse :
    (ws : List Bytes) (a : ℕ) {t : ℕ} → add_ticks a ws ≡ ok t → (ns : List ℕ) × AllParse ws ns
unfolding add_ticks
add_ticks-AllParse [] a e = ([], tt)
add_ticks-AllParse (w ∷ ws) a e =
    let (n, first, rest) = >>=-eq-ok (checked (parse_uint w)) (λ m. add_ticks (add64 a m) ws) e in
    let (ns, h) = add_ticks-AllParse ws (add64 a n) rest in
    (n ∷ ns, (checked-eq-ok (parse_uint w) first, h))

-- `t` is what a text in the format of /proc/stat says.
pub record IsReading (text : Bytes) (t : CpuTicks) : Type 0 where
  pub line : Bytes
  pub later : List Bytes
  pub words : List Bytes
  pub ns : List ℕ
  pub scanned : scan_lines text ≡ line ∷ later
  pub named : fields line ≡ ascii "cpu" ∷ words
  pub parsed : AllParse words ns
  pub enough : 5 ≤ length ns
  pub total_eq : t.total ≡ sum ns % u64_mod
  pub iowait_eq : t.iowait ≡ get_or ns 4 0

err-ne-ok : (e : Error) {t : CpuTicks} → err e ≢ ok t
err-ne-ok e h = cc

-- What the fields of the first line must be.
abbrev IsTotal : List Bytes → CpuTicks → Type 0
IsTotal fs t =
    (words : List Bytes) × (ns : List ℕ) × (fs ≡ ascii "cpu" ∷ words)
    × AllParse words ns
    × (5 ≤ length ns)
    × (t.total ≡ sum ns % u64_mod)
    × (t.iowait ≡ get_or ns 4 0)

cpu_fields-ok :
    (line : Bytes) (words : List Bytes) (ns : List ℕ)
    → AllParse words ns
    → 5 ≤ length ns
    → cpu_fields line (ascii "cpu" ∷ words)
      ≡ ok (record { iowait = get_or ns 4 0; total = sum ns % u64_mod })
unfolding cpu_fields cpu_numbers equal
cpu_fields-ok line words ns h b = ground (
  arith,
  add_ticks-sum words ns 0 (omega arith) h,
  get_or-AllParse words ns 4 b h,
  length-AllParse words ns h,
)

cpu_numbers-parts :
    (fs : List Bytes) {t : CpuTicks}
    → cpu_numbers fs ≡ ok t
    → (add_ticks 0 fs ≡ ok t.total) × (parse_uint (get_or fs 4 []) ≡ (t.iowait, none))
unfolding cpu_numbers
cpu_numbers-parts fs {t} e =
    let (n, ticked, e') = >>=-eq-ok (add_ticks 0 fs) _ e in
    let (m, read, e'') = >>=-eq-ok (checked (parse_uint (get_or fs 4 []))) _ e' in
    (cc, ground (arith, checked-eq-ok (parse_uint (get_or fs 4 [])) read))

numbers_total :
    (fs : List Bytes) (ns : List ℕ) (t : CpuTicks)
    → AllParse fs ns
    → 5 ≤ length fs
    → add_ticks 0 fs ≡ ok t.total
    → parse_uint (get_or fs 4 []) ≡ (t.iowait, none)
    → (5 ≤ length ns) × (t.total ≡ sum ns % u64_mod) × (t.iowait ≡ get_or ns 4 0)
numbers_total fs ns t h b ticked read =
    let enough : 5 ≤ length ns = omega (arith, length-AllParse fs ns h) in
    (
      enough,
      ground (arith, add_ticks-sum fs ns 0 (omega arith) h),
      cc (get_or-AllParse fs ns 4 enough h, read),
    )

cpu_fields-parts :
    (line name : Bytes) (fs : List Bytes) {t : CpuTicks}
    → cpu_fields line (name ∷ fs) ≡ ok t
    → (name ≡ ascii "cpu") × (5 ≤ length fs) × (cpu_numbers fs ≡ ok t)
unfolding cpu_fields
cpu_fields-parts line name fs e = ground (arith, equal_iff name (ascii "cpu"))

cpu_fields-IsTotal :
    (line : Bytes) (fs : List Bytes) {t : CpuTicks} → cpu_fields line fs ≡ ok t → IsTotal fs t
cpu_fields-IsTotal line [] {t} e =
    absurd (err-ne-ok (unexpected_proc_stat line) {t = t} (unfold cpu_fields in e))
cpu_fields-IsTotal line (name ∷ fs) {t} e =
    let (named, enough, numbers) = cpu_fields-parts line name fs e in
    let (ticked, read) = cpu_numbers-parts fs numbers in
    let (ns, h) = add_ticks-AllParse fs 0 ticked in
    let (enough', total, iowait) = numbers_total fs ns t h enough ticked read in
    (fs, ns, ap (λ (x : Bytes). x ∷ fs) named, h, enough', total, iowait)

read_cpu-lines : (text : Bytes) → read_cpu (ok text) ≡ first_line (scan_lines text)
unfolding read_cpu
read_cpu-lines text = refl

first_line-IsReading :
    (text : Bytes) (ls : List Bytes) {t : CpuTicks}
    → scan_lines text ≡ ls
    → first_line ls ≡ ok t
    → IsReading text t
first_line-IsReading text [] s e = absurd (err-ne-ok _ e)
first_line-IsReading text (line ∷ later) s e =
    let (words, ns, named, h, enough, total, iowait) = cpu_fields-IsTotal line (fields line) e in
    record {
      line = line;
      later = later;
      words = words;
      ns = ns;
      scanned = s;
      named = named;
      parsed = h;
      enough = enough;
      total_eq = total;
      iowait_eq = iowait;
    }

IsReading-first_line :
    (text : Bytes) {t : CpuTicks} → IsReading text t → first_line (scan_lines text) ≡ ok t
IsReading-first_line text r =
    rw (r.scanned, r.named)
      (cpu_fields-ok r.line r.words r.ns r.parsed r.enough ∙ cc (r.total_eq, r.iowait_eq))

-- `readCPU` succeeds with `t` exactly when the first line that the scanner hands on is the word
-- cpu and at least five fields, all of them uint64 numbers; `t` is then their sum, wrapped at
-- 2 ^ 64, and the fifth of them.
pub read_cpu_iff : (text : Bytes) (t : CpuTicks) → (read_cpu (ok text) ≡ ok t) ↔ IsReading text t
read_cpu_iff text t = (
  λ e. first_line-IsReading text (scan_lines text) refl (sym (read_cpu-lines text) ∙ e),
  λ r. read_cpu-lines text ∙ IsReading-first_line text r,
)

-- A first line as the kernel writes it, the word cpu and at least five decimal uint64 numbers with
-- white space between, is read as the fifth number and the sum of all, wrapped at 2 ^ 64, whatever
-- follows its newline.
pub read_cpu-Spells :
    {line : Bytes} {words : List Bytes} (ns : List ℕ) (later : Bytes)
    → IsLine line
    → Spells line (ascii "cpu" ∷ words)
    → AllWrites words ns
    → 5 ≤ length ns
    → read_cpu (ok (line ++ (b'\n' ∷ later)))
      ≡ ok (record { iowait = get_or ns 4 0; total = sum ns % u64_mod })
read_cpu-Spells {line} {words} ns later l s h b =
    read_cpu-lines (line ++ (b'\n' ∷ later))
    ∙ rw (scan_lines-append line later l, fields-Spells s)
        (cpu_fields-ok line words ns (AllWrites-AllParse words ns h) b)
