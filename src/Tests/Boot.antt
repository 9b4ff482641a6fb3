-- ===== src/Tests/Boot.antt =====
-- The start of the kernel at a concrete input.
use if2230_2023_ntaraja.Prelude.{replicate, refl, arith, []}
use if2230_2023_ntaraja.Inserter.{Image}
use if2230_2023_ntaraja.Inserter.Device.{image_device}
use if2230_2023_ntaraja.Tests.Machine.{Controller, controller}
use if2230_2023_ntaraja.Tests.Fat.{noon, fresh_state}
use if2230_2023_ntaraja.Tests.Drivers.{stub_addresses, stub_addresses-words, no_gate, screen}
use if2230_2023_ntaraja.Gdt.{global_descriptor_table}
use if2230_2023_ntaraja.Paging.{initial_pages}
use if2230_2023_ntaraja.Boot.{Machine, Given, machine_setup}
use if2230_2023_ntaraja.Boot.Ready.{IsWhole, IsReady, machine_setup-IsReady}

abbrev given : Given
given = record {
  stubs = stub_addresses;
  tss_address = 0xC0103A40;
  clock = λ call. noon;
  pointer_area = [];
  stack = [];
  stack_table = [];
  stack_table2 = [];
  stack_table3 = [];
}

abbrev machine : Machine Image Controller
machine = record {
  display = screen;
  idt = replicate 256 no_gate;
  gdt = global_descriptor_table;
  pages = initial_pages;
  files = fresh_state;
  memory = λ a. 0;
}

machine-IsWhole : IsWhole given 1 machine
machine-IsWhole = record {
  stubs = stub_addresses-words;
  tss = omega arith;
  gates = refl;
  segments = omega arith;
  directory = refl;
  next_frame = refl;
  low = omega arith;
  plain = record { low = refl; clear = refl };
}

machine_setup-IsReady_example : IsReady given 1 (machine_setup given machine)
machine_setup-IsReady_example = machine_setup-IsReady given 1 machine machine-IsWhole
