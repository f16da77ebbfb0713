-- ===== src/Shell/Commands.antt =====
-- The commands of apps/shell.c and one round of the loop of `shell_main`, over the system calls. A word
-- that a program reads or writes is the bytes from its address on, the lowest first.
pub mod Session
pub mod Round
use magical_os.Base.{
  ℕ, zero, suc, ◌+◌, ◌*◌, ◌/◌, ◌%◌, Option, none, some, List, [], ◌∷◌, ◌==◌, if◌then◌else◌, update,
  map_some,
}
use magical_os.Bytes.{Memory}
use magical_os.Syscall.{Kernel, M, pure, ◌>>=◌, ◌>>◌, do_syscall}
use magical_os.Shell.{
  CommandId, echo, readb, readw, readl, ioreadb, writeb, writew, writel, iowriteb, test_text,
  command_num, shutdown, str_get_first_entry, str_conv_ahex_int, get_command_id,
}

-- The addresses of the buffers: `buf`, `command` and `args` of `shell_main`, and those of a command.
pub record Buffers : Type 0 where
  pub line : ℕ
  pub command : ℕ
  pub args : ℕ
  pub first : ℕ
  pub second : ℕ
  pub other : ℕ
  pub rest : ℕ

-- The addresses of "OS5> ", "\r\n", "test\r\n" and "Command not found.\r\n".
pub record Texts : Type 0 where
  pub prompt : ℕ
  pub crlf : ℕ
  pub test : ℕ
  pub not_found : ℕ

abbrev pub max_line_size : ℕ
max_line_size = 512

abbrev pub load : ℕ → ℕ → Memory → ℕ
load zero a mem = 0
load (suc n) a mem = mem a + load n (a + 1) mem * 256

abbrev pub write : ℕ → ℕ → ℕ → Memory → Memory
write zero a value mem = mem
write (suc n) a value mem = write n (a + 1) (value / 256) (update mem a (value % 256))

abbrev pub in_memory : Kernel → Memory → Unit {0} × Kernel
in_memory k mem = (tt, record k { mem = mem })

abbrev pub with_value : Kernel → ℕ → ℕ × Kernel
with_value k n = (n, k)

module _ (fuel past dummy head : ℕ) (b : Buffers) (t : Texts) (inb_p : ℕ → ℕ) where
  unfoldable pub shell_put_str : ℕ → M ℕ
  shell_put_str str = do_syscall fuel past dummy head 4 str 0 0

  unfoldable pub shell_dump_hex : ℕ → ℕ → M ℕ
  shell_dump_hex val num_digits = do_syscall fuel past dummy head 6 val num_digits 0

  -- `str_get_first_entry` and `str_conv_ahex_int` on the program's memory.
  unfoldable pub split : ℕ → ℕ → ℕ → M (Unit {0})
  split line first other k =
      map_some (in_memory k) (str_get_first_entry fuel line first other k.mem)

  unfoldable pub conv_hex : ℕ → M ℕ
  conv_hex str k = map_some (with_value k) (str_conv_ahex_int fuel k.mem str)

  command_echo : ℕ → M ℕ
  unfolding shell_put_str
  command_echo args = do shell_put_str args; shell_put_str t.crlf

  -- `command_readb`, `command_readw` and `command_readl`, by the bytes that they read.
  command_read : ℕ → ℕ → M ℕ
  unfolding shell_put_str shell_dump_hex split conv_hex
  command_read size args = do
    split args b.first b.other
    addr ← conv_hex b.first
    value ← λ k. some (load size addr k.mem, k)
    shell_dump_hex value (size * 2)
    shell_put_str t.crlf

  command_ioreadb : ℕ → M ℕ
  unfolding shell_put_str shell_dump_hex split conv_hex
  command_ioreadb args = do
    split args b.first b.other
    addr ← conv_hex b.first
    shell_dump_hex (inb_p (addr % 0x10000)) 2
    shell_put_str t.crlf

  -- The two numbers of a command that writes: the data and the address.
  two_numbers : ℕ → M (ℕ × ℕ)
  unfolding split conv_hex
  two_numbers args = do
    split args b.first b.other
    split b.other b.second b.rest
    value ← conv_hex b.first
    addr ← conv_hex b.second
    pure (value, addr)

  -- `command_writeb`, `command_writew` and `command_writel`, by the bytes that they write.
  command_write : ℕ → ℕ → M ℕ
  unfolding two_numbers
  command_write size args = do
    n ← two_numbers args
    λ k. some (0, record k { mem = write size n.1 n.0 k.mem })

  command_iowriteb : ℕ → M ℕ
  unfolding two_numbers
  command_iowriteb args = do
    n ← two_numbers args
    λ k. some (
      0,
      record k {
        screen = record k.screen { ports = (n.1 % 0x10000, n.0 % 0x100) ∷ k.screen.ports };
      },
    )

  -- The default branch: a file of that name is executed.
  unfoldable pub run_file : M ℕ
  unfolding shell_put_str
  run_file = do
    fp ← do_syscall fuel past dummy head 9 b.command 0 0
    if fp == 0 then shell_put_str t.not_found else do_syscall fuel past dummy head 10 fp 0 0

  -- The `switch` on the command.
  unfoldable pub run_command : CommandId → M ℕ
  unfolding command_echo command_read command_ioreadb command_write command_iowriteb
  run_command echo = command_echo b.args
  run_command readb = command_read 1 b.args
  run_command readw = command_read 2 b.args
  run_command readl = command_read 4 b.args
  run_command ioreadb = command_ioreadb b.args
  run_command writeb = command_write 1 b.args
  run_command writew = command_write 2 b.args
  run_command writel = command_write 4 b.args
  run_command iowriteb = command_iowriteb b.args
  run_command test_text = shell_put_str t.test
  run_command shutdown = do_syscall fuel past dummy head 11 0 0 0
  run_command command_num = run_file

  -- The line that was read, as a command.
  unfoldable pub run_line : M ℕ
  run_line = do
    split b.line b.command b.args
    id ← λ k. some (get_command_id k.mem b.command, k)
    run_command id

  unfoldable pub shell_round : M ℕ
  shell_round = do
    shell_put_str t.prompt
    n ← do_syscall fuel past dummy head 8 b.line max_line_size 0
    if n == 0 then pure 0 else run_line
