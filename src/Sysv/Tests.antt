-- ===== src/Sysv/Tests.antt =====
-- Tests of the System V services, on the pools of Sysv.Pool.
use multikernel.Common.{◌≡◌, search_array, refl, false, none, pos, arith}
use multikernel.Sysv.Flags.{has_flag}
use multikernel.Sysv.Pool.{flags}
use multikernel.Sysv.Sem.{Sems, Sembuf, do_sem_init, do_sem_get, do_sem_operate}
use multikernel.Sysv.Sem.{set_val, wake, do_wakeup}
use multikernel.Common.{negsuc}
use multikernel.Sysv.Sem.Valid
use multikernel.Sysv.Sem.Operate.{
  NonNegative, HasRoom, ShortSleepers, do_sem_init-NonNegative, do_sem_get-NonNegative,
  do_sem_operate-NonNegative,
}
use multikernel.Sysv.Msgbuf.{Msgbuf}
use multikernel.Sysv.Msgbuf.Fifo
use multikernel.Sysv.Msg.{
  Msgs, Mqueue, do_msg_init, do_msg_get, do_msg_close, do_msg_send, do_msg_receive,
}
use multikernel.Sysv.Msg.Init
use multikernel.Sysv.Msg.Transfer.{Sends, Receives, do_msg_send-Sends, do_msg_receive-Receives}
use multikernel.Sysv.Msg.Valid.{Keeps, do_msg-IsValid}

abbrev one_sem : Sems flags
one_sem = (do_sem_get flags (do_sem_init flags) (pos 5) 1).1

one_sem-IsValid : Valid.IsValid flags one_sem
one_sem-IsValid =
    Valid.do_sem_get-IsValid flags (do_sem_init flags) (pos 5) 1 (Valid.do_sem_init-IsValid flags)

do_sem_get-IsValid_example : Valid.IsValid flags (do_sem_get flags one_sem (pos 6) 1).1
do_sem_get-IsValid_example = Valid.do_sem_get-IsValid flags one_sem (pos 6) 1 one_sem-IsValid

abbrev up : Sembuf
up = record { sem_op = pos 1; sem_flg = 0 }

one_sem-NonNegative : NonNegative flags one_sem
one_sem-NonNegative =
    do_sem_get-NonNegative flags (do_sem_init flags) (pos 5) 1 (do_sem_init-NonNegative flags)

one_sem-HasRoom : HasRoom flags one_sem
unfolding do_sem_get do_sem_init
one_sem-HasRoom i = ground arith

one_sem-ShortSleepers : ShortSleepers flags one_sem
unfolding do_sem_get do_sem_init has_flag search_array
one_sem-ShortSleepers k = (refl, refl)

-- A semaphore at the largest `int` is taken below zero by an increment.
abbrev full_sem : Sems flags
full_sem = set_val flags one_sem 0 (pos 2147483647)

overflows :
    ((do_sem_operate flags 4 full_sem (pos 1) (pos 0) up).1.semaphores 0).val ≡ negsuc 2147483647
unfolding do_sem_operate do_sem_get do_sem_init do_wakeup wake search_array has_flag
overflows = refl

do_sem_operate-NonNegative_example :
    NonNegative flags (do_sem_operate flags 4 one_sem (pos 1) (pos 0) up).1
do_sem_operate-NonNegative_example =
    do_sem_operate-NonNegative flags 4 one_sem (pos 1) (pos 0) up one_sem-NonNegative
      one_sem-HasRoom one_sem-ShortSleepers (refl, refl)

abbrev empty_buffer : Msgbuf
empty_buffer = record { len = 0; size = 256; head = 3840; tail = 3840; bytes = λ k. 0 }

empty_buffer-IsValid : Fifo.IsValid empty_buffer
empty_buffer-IsValid = record {
  sized = refl;
  bounded = omega arith;
  head_within = omega arith;
  aligned = omega arith;
  closed = omega arith;
}

abbrev blank : Mqueue flags
blank = record { resource = false; key = pos 0; refcount = pos 0; buf = none }

abbrev started : Msgs flags
started = do_msg_init flags (λ i. blank)

started-IsValid : Init.IsValid flags started
started-IsValid = (Init.do_msg_init-IsValid flags (λ i. blank)).0

-- The queue of key 5 is the first.
abbrev opened : Msgs flags
opened = (do_msg_get flags started (pos 5) 1).1

opened-IsValid : Init.IsValid flags opened
opened-IsValid = (do_msg-IsValid flags started (pos 5) 0 (pos 0) 1 started-IsValid).0

do_msg_send-Sends_example :
    Sends flags opened (pos 0) 256 4 (do_msg_send flags opened (pos 0) 256 4)
do_msg_send-Sends_example = do_msg_send-Sends flags opened (pos 0) 256 4 opened-IsValid

do_msg_receive-Receives_example :
    Receives flags opened (pos 0) 256 4 (do_msg_receive flags opened (pos 0) 256 (pos 1) 4)
do_msg_receive-Receives_example =
    do_msg_receive-Receives flags opened (pos 0) 256 (pos 1) 4 opened-IsValid

do_msg-IsValid_example :
    Init.IsValid flags (do_msg_get flags opened (pos 0) 4).1
    × Init.IsValid flags (do_msg_close flags opened (pos 0)).1
    × Keeps flags (do_msg_send flags opened (pos 0) 256 4)
    × Keeps flags (do_msg_receive flags opened (pos 0) 256 (pos 0) 4)
do_msg-IsValid_example = do_msg-IsValid flags opened (pos 0) 256 (pos 0) 4 opened-IsValid

-- Process 7 waits to lower the semaphore by one, which has become 2.
abbrev asleep : Sems flags
asleep = record (set_val flags one_sem 0 (pos 2)) {
  sleeping = λ k. record { conn = pos 7; semid = pos 0; val = negsuc 0 };
}
