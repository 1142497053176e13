-- ===== src/Transport/Main/Service.antt =====
-- A base station's answers in master/transport/transportmain.c and service.c.
use tenet_t.Timeval.{Timeval}
