-- ===== src/Lib.antt =====
-- The planner of tt-wavelet: the wavelet lifting transform on Tenstorrent devices.
--
-- tt-wavelet runs a wavelet transform as a list of lifting steps. The host plans the work before the
-- device sees a sample: it pads and splits the signal (common/signal.hpp, pad_split/layout.hpp), turns
-- the steps of a scheme into routes between three workspace slots (lifting/plan.hpp), finds which
-- intervals of the even and odd streams each route needs for a given piece of the output, and cuts the
-- transform into chunks whose workspaces fit the L1 memory of a core (lifting/execution_plan.hpp), which
-- lifting/l1_accounting.hpp adds up. Two-dimensional tensors are padded to tiles
-- (common/tiling_2d.hpp). The device then loads a chunk through the boundary extension
-- (common/signal_extension.hpp). The inverse transform plans the same way, from the coefficients back to
-- the signal (lifting/inverse_plan.hpp). All paths here are below tt-wavelet/tt_wavelet/include of the
-- repository.
--
-- Which file models what; functions keep their names:
--   Common      numbers, `int32_t` to `uint64_t` words, lists, and the result of code that may stop by
--               TT_FATAL.
--   Boundary    common/boundary.hpp and common/boundary_parse.hpp.
--   Extension   common/signal_extension.hpp: the 64-bit index maps of the eight modes and the 32-bit
--               ones of the device. Extension/Evaluate has the evaluators, over an abstract float, and
--               the visitors, whose callback is the list of its arguments. An overload for a mode known
--               at compile time has the suffix _in.
--   Signal      common/signal.hpp, common/padding.hpp, common/constants.hpp, pad_split/layout.hpp.
--   Plan        lifting/plan.hpp; Plan/Types has its types, lifting/step.hpp and
--               lifting/static_scheme.hpp; Plan/Schemes has the scheme schemes/testing/synthetic_k17.hpp.
--               The template recursion over the steps is a recursion over a list.
--   Execution   lifting/execution_plan.hpp: intervals and backpropagate_requirements. Execution/Axis has
--               build_axis_cone, Execution/Chunk the inline terminal scale and Execution/Chunk/Build
--               build_chunk, Execution/Schedule build_chunks and make_lwt_execution_plan,
--               Execution/Doubling the search that both execution plans make.
--               Execution/Chunk/Run and Execution/Chunk/Build/Core say what a chunk's routes do to the
--               samples in the slots and final buffers, for any arithmetic of the steps: a stencil
--               combines a window of its source with its base, and one that writes to a final buffer
--               is scaled on the way, as in kernels/compute/lwt_compute.cpp. They are the independent
--               description that the theorems on both build_chunk functions are stated with.
--   Inverse     lifting/inverse_plan.hpp: propagate_requirements and make_inverse_lifting_plan;
--               Inverse/Chunk has its build_chunk, which is build_ilwt_chunk here, Inverse/Schedule
--               build_chunks and make_ilwt_execution_plan.
--   Tiling      common/tiling_2d.hpp: shapes and their 32 x 32 tiles, and the padding of tensors.
--   Memory      lifting/l1_accounting.hpp.
--   Kernel      the reader kernel tt-wavelet/kernels/dataflow/lwt_reader.cpp and kernels/primitives:
--               Kernel/Workspace workspace_layout.hpp, Kernel/TileLayout tile_2d_layout.hpp,
--               Kernel/StickCache stick_cache.hpp, Kernel/Streams the initialisation of the streams,
--               Kernel/Packing the loops that fill tiles and Kernel/Emit the routes' groups of tiles.
-- The state of a loop is a record that its step takes and returns (RouteState, BackState, ChunkState);
-- the routes that a loop pushes are a list that it returns. TT_FATAL is `fatal`; its message is not
-- modelled.
--
-- Numbers: `size_t` and `uint64_t` wrap at 2 ^ 64, `uint32_t` at 2 ^ 32; sums of `int` are exact, since
-- their overflow is undefined. Loops run along lists or down a count. The search for a chunk
-- count runs on fuel: 33 rounds, since the count doubles up to a number of groups below 2 ^ 32.
-- Floating-point arithmetic is a parameter: no theorem rests on a law of it. The `double` of the
-- reported dependency overhead is kept as a fraction.
--
-- What the kernels call of tt-metal is a parameter with the laws that they rely on: Platform has the
-- circular buffers, the source accessor and noc_async_read, LocalReads the transfers within a core. The
-- memory of a core is a function from the byte address of a word, the pages that a loop fills are
-- arrays by buffer and word, and a reader that changes a state runs the evaluators of Extension in
-- state passing. A read is seen at once, since the kernels look at its words after the barrier only.
--
-- Not modelled: the two-dimensional planners, the choice of the architecture's policy (an enumeration of
-- tt-metal), the device programs, the kernel_main functions with their configuration pages and
-- semaphores, the writer, compute and two-dimensional kernels, and the command lines.
pub mod Common
pub mod Boundary
pub mod Extension
pub mod Signal
pub mod Plan
pub mod Execution
pub mod Inverse
pub mod Tiling
pub mod Memory
pub mod Kernel
