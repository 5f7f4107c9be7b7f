-- ===== src/Programs/SysErr.antt =====
-- syscalls/ece391syserr.c, the tests of the system calls' errors. `buf` is the address of the array of
-- the test at hand.
pub mod Passing
use Prim.Native.String.{String}
use lightweight_operating_sy.Prelude.{ℕ, zero, suc, ◌+◌, ◌==◌, minus_one, u32, sub32, if◌then◌else◌}
use lightweight_operating_sy.Programs.{System, Program, ◌>>=◌, ◌>>◌, pure, say, load}

-- -1073741823 and 1073741823
abbrev pub neg_fd : ℕ
neg_fd = 0xc000_0001

abbrev pub big_fd : ℕ
big_fd = 0x3fff_ffff

module _ (S : System) (text : String → ℕ) (lib_fuel : ℕ) where
  -- `if (-1 != call) { fail = 2; ece391_fdputs (1, "..."); }`
  unfoldable pub refuses : Program S ℕ → String → ℕ → Program S ℕ
  refuses call line fail = do
    r ← call
    if r == minus_one then pure fail else (do say S lib_fuel text line; pure 2)

  -- The two messages at the end of a test.
  unfoldable pub verdict : String → String → ℕ → Program S ℕ
  verdict failed passed fail = do
    say S lib_fuel text (if fail == 0 then passed else failed)
    pure fail

  unfoldable pub err_neg_fd : ℕ → Program S ℕ
  err_neg_fd buf = do
    fail ← refuses (S.read neg_fd buf 31) "read fail\n" 0
    fail ← refuses (S.write neg_fd buf 31) "write fail\n" fail
    fail ← refuses (S.close neg_fd) "close fail\n" fail
    verdict "err_neg_fd: FAIL\n" "err_neg_fd: PASS\n" fail

  unfoldable pub err_big_fd : ℕ → Program S ℕ
  err_big_fd buf = do
    fail ← refuses (S.read big_fd buf 31) "read fail\n" 0
    fail ← refuses (S.write big_fd buf 31) "write fail\n" fail
    fail ← refuses (S.close big_fd) "close fail\n" fail
    verdict "err_big_fd: FAIL\n" "err_big_fd: PASS\n" fail

  -- `for (i = 0; i < 7; i++)` with `left` rounds to go: the opens that failed.
  unfoldable pub open_lots : ℕ → ℕ → Program S ℕ
  open_lots zero cnt = pure cnt
  open_lots (suc left) cnt = do
    r ← S.opens (text ".")
    open_lots left (if r == minus_one then u32 (cnt + 1) else cnt)

  -- `for(i = 2; i < 8; i++) ece391_close(i);`
  unfoldable pub close_range : ℕ → ℕ → Program S (Unit {0})
  close_range zero i = pure tt
  close_range (suc left) i = do _ ← S.close i; close_range left (i + 1)

  unfoldable pub err_open_lots : Program S ℕ
  unfolding open_lots close_range
  err_open_lots = do
    cnt ← open_lots 7 0
    close_range 6 2
    if cnt == 1
        then (do say S lib_fuel text "err_open_lots: PASS\n"; pure 0)
        else (do say S lib_fuel text "err_open_lots: FAIL\n"; pure 2)

  unfoldable pub err_open : Program S ℕ
  err_open = do
    fail ← refuses (S.opens (text "helloo")) "'helloo' fail\n" 0
    fail ← refuses (S.opens (text "shel")) "'shel' fail\n" fail
    fail ← refuses (S.opens (text "")) "empty string fail\n" fail
    verdict "err_open: FAIL\n" "err_open: PASS\n" fail

  -- One of the three loops of `err_unopened`, from descriptor `i` on.
  unfoldable pub refuses_range : (ℕ → Program S ℕ) → String → ℕ → ℕ → ℕ → Program S ℕ
  refuses_range call line zero i fail = pure fail
  refuses_range call line (suc left) i fail = do
    fail ← refuses (call i) line fail
    refuses_range call line left (i + 1) fail

  unfoldable pub err_unopened : ℕ → Program S ℕ
  unfolding refuses_range
  err_unopened buf = do
    fail ← refuses_range (λ i. S.close i) "close unopened or invalid fd fail\n" 8 0 0
    fail ← refuses_range (λ i. S.read i buf 31) "read from unopened fd fail\n" 6 2 fail
    fail ← refuses_range (λ i. S.write i buf 31) "write to unopened fd fail\n" 6 2 fail
    verdict "err_unopened: FAIL\n" "err_unopened: PASS\n" fail

  unfoldable pub err_vidmap : Program S ℕ
  err_vidmap = do
    fail ← refuses (S.vidmap 0) "Null pointer fail\n" 0
    fail ← refuses (S.vidmap 0x40_0000) "Kernel pointer fail fail\n" fail
    verdict "err_vidmap: FAIL\n" "err_vidmap: PASS\n" fail

  unfoldable pub err_stdin_out : ℕ → Program S ℕ
  err_stdin_out buf = do
    fail ← refuses (S.write 0 buf 31) "write to stdin fail\n" 0
    fail ← refuses (S.read 1 buf 31) "read from stdout fail\n" fail
    verdict "err_stdin_out: FAIL\n" "err_stdin_out: PASS\n" fail

  -- `BIG_NUM` and `NEG_NUM` are the numbers of `big_fd` and `neg_fd`.
  unfoldable pub err_syscall_num : Program S ℕ
  err_syscall_num = do
    fail ← refuses (S.trap big_fd) "syscall 0 fail\n" 0
    fail ← refuses (S.trap neg_fd) "big num syscall fail\n" fail
    fail ← refuses (S.trap 0) "neg num syscall fail\n" fail
    verdict "err_syscall_num: FAIL\n" "err_syscall_num: PASS\n" fail

  -- Case 0 of the switch; `at` gives the address of each test's array.
  unfoldable pub run_all : (ℕ → ℕ) → Program S ℕ
  run_all at = do
    neg ← err_neg_fd (at 1)
    big ← err_big_fd (at 2)
    lots ← err_open_lots
    opened ← err_open
    unopened ← err_unopened (at 5)
    video ← err_vidmap
    stdio ← err_stdin_out (at 7)
    number ← err_syscall_num
    verdict "\nOverall Tests: FAIL\n" "\nOverall Tests: PASS\n"
        (u32 (neg + big + lots + opened + unopened + video + stdio + number))

  -- `switch(select)`
  unfoldable pub selected : (ℕ → ℕ) → ℕ → Program S ℕ
  selected at select =
      if select == 0
      then run_all at
      else if select == 1
      then err_neg_fd (at 1)
      else if select == 2
      then err_big_fd (at 2)
      else if select == 3
      then err_open_lots
      else if select == 4
      then err_open
      else if select == 5
      then err_unopened (at 5)
      else if select == 6
      then err_vidmap
      else if select == 7
      then err_stdin_out (at 7)
      else if select == 8
      then err_syscall_num
      else (do say S lib_fuel text "Invalid test number. Choose from tests 1-8 or 0"; pure 0)

  unfoldable pub syserr : ℕ → (ℕ → ℕ) → Program S ℕ
  syserr buf at = do
    say S lib_fuel text "Choose from tests 1-8. 0 to run all: "
    cnt ← S.read 0 buf 127
    if cnt == minus_one
        then (do say S lib_fuel text "Can't read test #\n"; pure 2)
        else (do first ← load S buf; selected at (sub32 first b'0'))
