-- ===== src/Libc/Tests.antt =====
-- The theorems about lib/libc/string.c at small inputs.
use hydra_microkernal.Prelude.{
  ℕ, List, [], ◌∷◌, All, true, false, ◌⊎◌, ◌≤◌, ◌<◌, ◌≡◌, refl, some, none, pos, negsuc, arith,
  Bytes, ◌==◌, if◌then◌else◌,
}
use hydra_microkernal.Libc.{strcat, strcmp, strncmp, strchr, memset}
use hydra_microkernal.Mm.Boot.{mm_init-IsHeap}
use hydra_microkernal.Mm.{Heap, mm_init, align8}
use hydra_microkernal.Mm.Cells.{Cell, cell}
use hydra_microkernal.Libc.Stdlib.{itoa, calloc}
use hydra_microkernal.Libc.Decimal.{IsPrinted, atoi-itoa}
use hydra_microkernal.Libc.Copies.{IsAppended, strcat-IsAppended}
use hydra_microkernal.Libc.Calloc.{IsZeroed, calloc-IsZeroed}
use hydra_microkernal.Varargs.{number, text}
use hydra_microkernal.Hydra.Console.{precision_format}
use hydra_microkernal.Libc.Stdio.{
  Out, put, empty_out, terminated, printf_loop, sprintf_loop, printf,
}
use hydra_microkernal.Libc.Format.{printf_loop-bounds}
use hydra_microkernal.Libc.Room.{printf_loop-sprintf_loop, printf-output}
use hydra_microkernal.Libc.Strings.{IsString}

-- "ab" and "ac"
abbrev ab : Bytes
ab i = if i == 0 then 97 else if i == 1 then 98 else 0

abbrev ac : Bytes
ac i = if i == 0 then 97 else if i == 1 then 99 else 0

ab-IsString : IsString ab 0 2
ab-IsString = record { end = refl; before = λ j a b. ground arith }

-- "ab" comes before "ac", and they agree in one character.
strcmp_before : strcmp 5 ab ac ≡ some (negsuc 0)
unfolding strcmp
strcmp_before = refl

strncmp_one : strncmp ab ac 1 ≡ pos 0
unfolding strncmp
strncmp_one = refl

strchr_found : strchr 5 ab 98 ≡ some (some 1)
unfolding strchr
strchr_found = refl

strchr_missing : strchr 5 ab 99 ≡ some none
unfolding strchr
strchr_missing = refl

memset_byte : memset ab 257 1 0 ≡ 1
unfolding memset
memset_byte = refl

ac-IsString : IsString ac 0 2
ac-IsString = record { end = refl; before = λ j a b. ground arith }

atoi-itoa_example : IsPrinted (negsuc 2026) (itoa (negsuc 2026) ab 10)
atoi-itoa_example = atoi-itoa (negsuc 2026) ab (omega arith)

strcat-IsAppended_example : IsAppended (strcat 3 ab ac) 2 2 ab ac
strcat-IsAppended_example =
    strcat-IsAppended 2 2 3 ab ac ab-IsString ac-IsString (omega arith) (omega arith)

-- A heap of one free block of 1008 bytes.
abbrev before : Heap
before = record {
  store = λ a. record { size = 0; free = false; next = 0 };
  heap_head = 0;
  total_allocated = 0;
}

abbrev one_block : List Cell
one_block = cell 1008 true ∷ []

calloc-IsZeroed_example :
    ((calloc 2 10 8 (mm_init 4096 5120 before) ab ≡ some (mm_init 4096 5120 before, ab, 0))
      × All (λ c. c.free ≡ true → c.size < align8 80) one_block)
    ⊎ IsZeroed 4096 5120 one_block 80 ab (calloc 2 10 8 (mm_init 4096 5120 before) ab)
calloc-IsZeroed_example =
    calloc-IsZeroed (mm_init-IsHeap 4096 5120 before refl (omega arith) (omega arith) (omega arith))
      2 10 8 ab (omega arith) (omega arith)

-- "%s=%d" with "x" and -5 is "x=-5".
abbrev assignment : Out
assignment = put 53 (put 45 (put 61 (put 120 (empty_out (λ i. 0)))))

sprintf_assignment :
    sprintf_loop (λ i. 0) (37 ∷ 115 ∷ 61 ∷ 37 ∷ 100 ∷ []) (text (120 ∷ []) ∷ number (negsuc 4) ∷ [])
    ≡ some assignment
unfolding sprintf_loop
sprintf_assignment = refl

printf_assignment :
    printf_loop (λ i. 0) (37 ∷ 115 ∷ 61 ∷ 37 ∷ 100 ∷ []) (text (120 ∷ []) ∷ number (negsuc 4) ∷ [])
    ≡ some assignment
unfolding printf_loop
printf_assignment = refl

printf_loop-sprintf_loop_example :
    printf_loop (λ i. 0) (37 ∷ 115 ∷ 61 ∷ 37 ∷ 100 ∷ []) (text (120 ∷ []) ∷ number (negsuc 4) ∷ [])
    ≡ some assignment
printf_loop-sprintf_loop_example =
    printf_loop-sprintf_loop (λ i. 0) (37 ∷ 115 ∷ 61 ∷ 37 ∷ 100 ∷ [])
      (text (120 ∷ []) ∷ number (negsuc 4) ∷ []) assignment sprintf_assignment (omega arith)

printf_loop-bounds_example :
    (assignment.used < 1024)
    × (assignment.count ≡ assignment.used)
    × ((j : ℕ) → 1024 ≤ j → terminated assignment j ≡ 0)
printf_loop-bounds_example =
    printf_loop-bounds (λ i. 0) (37 ∷ 115 ∷ 61 ∷ 37 ∷ 100 ∷ [])
      (text (120 ∷ []) ∷ number (negsuc 4) ∷ []) {o = assignment} printf_assignment

printf-output_example :
    printf (λ i. 0) (37 ∷ 115 ∷ 61 ∷ 37 ∷ 100 ∷ []) (text (120 ∷ []) ∷ number (negsuc 4) ∷ [])
    ≡ some (precision_format, 4)
printf-output_example =
    printf-output (λ i. 0) (37 ∷ 115 ∷ 61 ∷ 37 ∷ 100 ∷ [])
      (text (120 ∷ []) ∷ number (negsuc 4) ∷ []) {o = assignment} printf_assignment
